-- ===== src/Sdk/VisualRecording.antt =====
-- sdk/client.py: the wrappers of `VisualRecordingClient`.
pub mod Queries
use Prim.Native.String.{String}
use r2_labs.Base.{List, [], ◌∷◌, Option, none, some, ℕ, true, false}
use r2_labs.Sdk.Value.{empty_list, empty_dict, or_else, Value, Request}
use r2_labs.Sdk.VisualRecording.Queries.{
  generate_april_tag_masks_query, get_visual_recording_frame_query,
  load_visual_trajectory_into_buffer_query, prepare_visual_recording_query,
  save_visual_recording_query, segment_visual_recording_query,
}

abbrev pub prepare : Value → Value → Value → Request
prepare trajectory_source timeout_seconds hold_until_start = record {
  fn_name = "visual_recording.prepare";
  query = some (
    prepare_visual_recording_query,
    ("trajectory_source", trajectory_source)
        ∷ ("timeout_seconds", timeout_seconds)
        ∷ ("hold_until_start", hold_until_start)
        ∷ [],
  );
  deadline = none;
  response = some "PrepareVisualRecordingResponse";
}

abbrev pub start : Request
start = record {
  fn_name = "visual_recording.start";
  query = none;
  deadline = none;
  response = some "StartVisualRecordingResponse";
}

abbrev pub stop : Request
stop = record {
  fn_name = "visual_recording.stop";
  query = none;
  deadline = none;
  response = some "StopVisualRecordingResponse";
}

abbrev pub get_state : Request
get_state = record {
  fn_name = "visual_recording.get_state";
  query = none;
  deadline = none;
  response = some "VisualRecordingStateResponse";
}

abbrev pub get_frame : Value → Request
get_frame frame_index = record {
  fn_name = "visual_recording.get_frame";
  query = some (get_visual_recording_frame_query, ("frame_index", frame_index) ∷ []);
  deadline = none;
  response = some "GetVisualRecordingFrameResponse";
}

abbrev pub save : Value → Value → Value → Value → Value → Value → Request
save name description camera_type current_tool object_mapping allow_overwrite = record {
  fn_name = "visual_recording.save";
  query = some (
    save_visual_recording_query,
    ("name", name)
        ∷ ("description", description)
        ∷ ("camera_type", camera_type)
        ∷ ("current_tool", or_else current_tool empty_list)
        ∷ ("object_mapping", or_else object_mapping empty_dict)
        ∷ ("allow_overwrite", allow_overwrite)
        ∷ [],
  );
  deadline = none;
  response = some "SaveVisualRecordingResponse";
}

abbrev pub load_from_saved : Value → Request
load_from_saved name = record {
  fn_name = "visual_recording.load_from_saved";
  query = some (load_visual_trajectory_into_buffer_query, ("name", name) ∷ []);
  deadline = some 30000;
  response = some "LoadVisualTrajectoryIntoBufferResponse";
}

abbrev pub get_frame_thumbnails : Request
get_frame_thumbnails = record {
  fn_name = "visual_recording.get_frame_thumbnails";
  query = none;
  deadline = none;
  response = some "GetVisualRecordingFrameThumbnailsResponse";
}

abbrev pub segment_recording : Value → Value → Value → Value → Value → Value → Option ℕ → Request
segment_recording positive_points negative_points subsample start_frame end_frame mode timeout =
    record {
      fn_name = "visual_recording.segment_recording";
      query = some (
        segment_visual_recording_query,
        ("positive_points", positive_points)
            ∷ ("negative_points", negative_points)
            ∷ ("subsample", subsample)
            ∷ ("start_frame", start_frame)
            ∷ ("end_frame", end_frame)
            ∷ ("mode", mode)
            ∷ [],
      );
      deadline = timeout;
      response = some "SegmentVisualRecordingResponse";
    }

abbrev pub generate_apriltag_masks : Value → Value → Value → Value → Value → Option ℕ → Request
generate_apriltag_masks tag_family tag_id tag_size start_frame end_frame timeout = record {
  fn_name = "visual_recording.generate_apriltag_masks";
  query = some (
    generate_april_tag_masks_query,
    ("tag_family", tag_family)
        ∷ ("tag_id", tag_id)
        ∷ ("tag_size", tag_size)
        ∷ ("start_frame", start_frame)
        ∷ ("end_frame", end_frame)
        ∷ [],
  );
  deadline = timeout;
  response = some "GenerateAprilTagMasksResponse";
}

-- Every request of these wrappers, for any arguments.
abbrev pub requests : (String → Value) → ℕ → Option ℕ → List Request
requests v n t =
    prepare (v "trajectory_source") (v "timeout_seconds") (v "hold_until_start")
    ∷ start
    ∷ stop
    ∷ get_state
    ∷ get_frame (v "frame_index")
    ∷ save (v "name") (v "description") (v "camera_type") (v "current_tool") (v "object_mapping")
        (v "allow_overwrite")
    ∷ load_from_saved (v "name")
    ∷ get_frame_thumbnails
    ∷ segment_recording (v "positive_points") (v "negative_points") (v "subsample")
        (v "start_frame") (v "end_frame") (v "mode") t
    ∷ generate_apriltag_masks (v "tag_family") (v "tag_id") (v "tag_size") (v "start_frame")
        (v "end_frame") t
    ∷ []
