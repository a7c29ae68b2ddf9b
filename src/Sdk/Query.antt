-- ===== src/Sdk/Query.antt =====
-- sdk/client.py: the wrappers of `QueryClient`, with their queries of sdk/rpc_api.py.
use Prim.Native.String.{String}
use r2_labs.Base.{List, [], ◌∷◌, Option, none, some, ℕ}
use r2_labs.Sdk.Value.{
  null, thousandths, str, if_given, as_list, required, optional, with_buffer, Value, DataClass,
  Request,
}

abbrev pub can_see_object_query : DataClass
can_see_object_query = record {
  name = "CanSeeObjectQuery";
  fields =
      required "object_names"
      ∷ optional "timeout_seconds" (thousandths 15000)
      ∷ optional "detection_thresholds" null
      ∷ [];
}

abbrev pub visual_pose_error_query : DataClass
visual_pose_error_query = record {
  name = "VisualPoseErrorQuery";
  fields = required "visual_pose_name" ∷ [];
}

abbrev pub predict_progress_query : DataClass
predict_progress_query = record {
  name = "PredictProgressQuery";
  fields = optional "model_id" (str "") ∷ optional "service_address" (str "") ∷ [];
}

abbrev pub can_see_object : Value → ℕ → Value → Request
can_see_object object_names timeout_seconds detection_thresholds = record {
  fn_name = "query.can_see_object";
  query = some (
    can_see_object_query,
    ("object_names", as_list object_names)
        ∷ ("timeout_seconds", thousandths timeout_seconds)
        ∷ (
          "detection_thresholds",
          if_given detection_thresholds (as_list detection_thresholds) null,
        )
        ∷ [],
  );
  deadline = some (with_buffer timeout_seconds);
  response = some "CanSeeObjectResponse";
}

abbrev pub get_visual_pose_error : Value → ℕ → Request
get_visual_pose_error visual_pose_name timeout_seconds = record {
  fn_name = "query.visual_pose_error";
  query = some (visual_pose_error_query, ("visual_pose_name", visual_pose_name) ∷ []);
  deadline = some (with_buffer timeout_seconds);
  response = some "VisualPoseErrorResponse";
}

abbrev pub predict_progress : Value → Value → Request
predict_progress model_id service_address = record {
  fn_name = "query.predict_progress";
  query =
      some (
        predict_progress_query,
        ("model_id", model_id) ∷ ("service_address", service_address) ∷ [],
      );
  deadline = none;
  response = some "PredictProgressResponse";
}

-- Every request of these wrappers, for any arguments.
abbrev pub requests : (String → Value) → ℕ → Option ℕ → List Request
requests v n t =
    can_see_object (v "object_names") n (v "detection_thresholds")
    ∷ get_visual_pose_error (v "visual_pose_name") n
    ∷ predict_progress (v "model_id") (v "service_address")
    ∷ []
