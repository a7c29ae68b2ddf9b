-- ===== src/Sdk/VisualRecording/Queries.antt =====
-- sdk/rpc_api.py: the queries of `VisualRecordingClient`.
use r2_labs.Base.{[], ◌∷◌, false}
use r2_labs.Sdk.Value.{
  null, empty_list, empty_dict, flag, number, thousandths, str, member, made, required, optional,
  DataClass,
}

abbrev pub prepare_visual_recording_query : DataClass
prepare_visual_recording_query = record {
  name = "PrepareVisualRecordingQuery";
  fields =
      optional "trajectory_source" (member "TrajectorySource.ROBOT")
      ∷ optional "timeout_seconds" (thousandths 300000)
      ∷ optional "hold_until_start" (flag false)
      ∷ [];
}

abbrev pub get_visual_recording_frame_query : DataClass
get_visual_recording_frame_query = record {
  name = "GetVisualRecordingFrameQuery";
  fields = optional "frame_index" (number 0) ∷ [];
}

abbrev pub save_visual_recording_query : DataClass
save_visual_recording_query = record {
  name = "SaveVisualRecordingQuery";
  fields =
      required "name"
      ∷ optional "description" (str "")
      ∷ optional "object_mapping" empty_dict
      ∷ optional "current_tool" empty_list
      ∷ optional "camera_type" (member "CameraType.WRIST")
      ∷ optional "allow_overwrite" (flag false)
      ∷ [];
}

abbrev pub load_visual_trajectory_into_buffer_query : DataClass
load_visual_trajectory_into_buffer_query = record {
  name = "LoadVisualTrajectoryIntoBufferQuery";
  fields = required "name" ∷ [];
}

abbrev pub segment_visual_recording_query : DataClass
segment_visual_recording_query = record {
  name = "SegmentVisualRecordingQuery";
  fields =
      required "positive_points"
      ∷ required "negative_points"
      ∷ optional "subsample" (made "DEFAULT_ANNOTATION_SUBSAMPLE")
      ∷ optional "start_frame" null
      ∷ optional "end_frame" null
      ∷ optional "mode" (str "sam2")
      ∷ [];
}

abbrev pub generate_april_tag_masks_query : DataClass
generate_april_tag_masks_query = record {
  name = "GenerateAprilTagMasksQuery";
  fields =
      required "tag_family"
      ∷ required "tag_id"
      ∷ required "tag_size"
      ∷ optional "start_frame" null
      ∷ optional "end_frame" null
      ∷ [];
}
