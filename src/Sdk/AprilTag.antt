-- ===== src/Sdk/AprilTag.antt =====
-- sdk/client.py: the wrappers of `AprilTagClient`, with their queries of sdk/rpc_api.py.
use Prim.Native.String.{String}
use r2_labs.Base.{List, [], ◌∷◌, Option, none, some, ℕ}
use r2_labs.Sdk.Value.{null, if_given, as_list, required, optional, Value, DataClass, Request}

abbrev pub april_tag_detect_query : DataClass
april_tag_detect_query = record {
  name = "AprilTagDetectQuery";
  fields =
      required "image"
      ∷ optional "families" null
      ∷ optional "intrinsics" null
      ∷ optional "tag_size" null
      ∷ [];
}

abbrev pub detect : Value → Value → Value → Value → Option ℕ → Request
detect image families intrinsics tag_size timeout = record {
  fn_name = "apriltag.detect";
  query = some (
    april_tag_detect_query,
    ("image", image)
        ∷ ("families", if_given families (as_list families) null)
        ∷ ("intrinsics", intrinsics)
        ∷ ("tag_size", tag_size)
        ∷ [],
  );
  deadline = timeout;
  response = some "AprilTagDetectResponse";
}

abbrev pub get_service_info : Option ℕ → Request
get_service_info timeout = record {
  fn_name = "apriltag.get_service_info";
  query = none;
  deadline = timeout;
  response = some "AprilTagServiceInfoResponse";
}

-- Every request of these wrappers, for any arguments.
abbrev pub requests : (String → Value) → ℕ → Option ℕ → List Request
requests v n t =
    detect (v "image") (v "families") (v "intrinsics") (v "tag_size") t ∷ get_service_info t ∷ []
