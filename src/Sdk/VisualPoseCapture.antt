-- ===== src/Sdk/VisualPoseCapture.antt =====
-- sdk/client.py: the wrappers of `VisualPoseCaptureClient`, with their queries of sdk/rpc_api.py.
use Prim.Native.String.{String}
use r2_labs.Base.{List, [], ◌∷◌, Option, none, some, ℕ, false}
use r2_labs.Sdk.Value.{null, flag, member, required, optional, Value, DataClass, Request}

abbrev pub prepare_visual_pose_capture_query : DataClass
prepare_visual_pose_capture_query = record {
  name = "PrepareVisualPoseCaptureQuery";
  fields = optional "camera_type" (member "CameraType.WRIST") ∷ [];
}

abbrev pub save_visual_pose_capture_query : DataClass
save_visual_pose_capture_query = record {
  name = "SaveVisualPoseCaptureQuery";
  fields =
      required "name"
      ∷ required "description"
      ∷ required "reference_type"
      ∷ required "reference_mask"
      ∷ optional "apriltag_metadata" null
      ∷ optional "allow_overwrite" (flag false)
      ∷ [];
}

abbrev pub prepare : Value → Request
prepare camera_type = record {
  fn_name = "visual_pose_capture.prepare";
  query = some (prepare_visual_pose_capture_query, ("camera_type", camera_type) ∷ []);
  deadline = none;
  response = none;
}

abbrev pub capture : Request
capture = record {
  fn_name = "visual_pose_capture.capture";
  query = none;
  deadline = none;
  response = some "CaptureVisualPoseResponse";
}

abbrev pub get_frame : Request
get_frame = record {
  fn_name = "visual_pose_capture.get_frame";
  query = none;
  deadline = none;
  response = some "GetVisualPoseCaptureFrameResponse";
}

abbrev pub discard : Request
discard = record {
  fn_name = "visual_pose_capture.discard";
  query = none;
  deadline = none;
  response = none;
}

abbrev pub save : Value → Value → Value → Value → Value → Value → Request
save name reference_type reference_mask description apriltag_metadata allow_overwrite = record {
  fn_name = "visual_pose_capture.save";
  query = some (
    save_visual_pose_capture_query,
    ("name", name)
        ∷ ("description", description)
        ∷ ("reference_type", reference_type)
        ∷ ("reference_mask", reference_mask)
        ∷ ("apriltag_metadata", apriltag_metadata)
        ∷ ("allow_overwrite", allow_overwrite)
        ∷ [],
  );
  deadline = none;
  response = some "SaveVisualPoseCaptureResponse";
}

-- Every request of these wrappers, for any arguments.
abbrev pub requests : (String → Value) → ℕ → Option ℕ → List Request
requests v n t =
    prepare (v "camera_type")
    ∷ capture
    ∷ get_frame
    ∷ discard
    ∷ save (v "name") (v "reference_type") (v "reference_mask") (v "description")
        (v "apriltag_metadata") (v "allow_overwrite")
    ∷ []
