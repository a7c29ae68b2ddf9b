-- ===== src/Sdk/VisualTrajectoryLibrary.antt =====
-- sdk/client.py: the wrappers of `VisualTrajectoryLibraryClient`.
pub mod Queries
use Prim.Native.String.{String}
use r2_labs.Base.{true, false, List, [], ◌∷◌, Option, none, some, ℕ, true, false}
use r2_labs.Sdk.Value.{
  DataClass, Request, Value, as_list, empty_dict, empty_list, flag, if_given, null, number,
  optional, or_else, required, str, unset,
}
use r2_labs.Sdk.VisualTrajectoryLibrary.Queries.{
  add_visual_trajectory_object_query, add_visual_trajectory_query, add_visual_trajectory_tool_query,
  delete_visual_trajectory_object_query, delete_visual_trajectory_query,
  delete_visual_trajectory_tool_query, duplicate_visual_trajectory_query,
  load_visual_trajectory_query, rename_visual_trajectory_query,
  restore_visual_trajectory_snapshot_query, trim_visual_trajectory_query,
}

abbrev pub list_entries : Request
list_entries = record {
  fn_name = "visual_trajectory_library.list_entries";
  query = none;
  deadline = none;
  response = some "ListVisualTrajectoriesResponse";
}

abbrev pub add_entry : Value → Value → Request
add_entry visual_trajectory allow_overwrite = record {
  fn_name = "visual_trajectory_library.add_entry";
  query = some (
    add_visual_trajectory_query,
    ("visual_trajectory", visual_trajectory) ∷ ("allow_overwrite", allow_overwrite) ∷ [],
  );
  deadline = none;
  response = some "AddVisualTrajectoryQueryResponse";
}

abbrev pub delete_entry : Value → Request
delete_entry visual_trajectory_name = record {
  fn_name = "visual_trajectory_library.delete_entry";
  query =
      some
        (delete_visual_trajectory_query, ("visual_trajectory_name", visual_trajectory_name) ∷ []);
  deadline = none;
  response = some "DeleteVisualTrajectoryQueryResponse";
}

abbrev pub rename_entry : Value → Value → Value → Request
rename_entry old_name new_name allow_overwrite = record {
  fn_name = "visual_trajectory_library.rename_entry";
  query = some (
    rename_visual_trajectory_query,
    ("old_name", old_name) ∷ ("new_name", new_name) ∷ ("allow_overwrite", allow_overwrite) ∷ [],
  );
  deadline = none;
  response = some "RenameVisualTrajectoryQueryResponse";
}

abbrev pub duplicate_entry : Value → Value → Request
duplicate_entry source_name dest_name = record {
  fn_name = "visual_trajectory_library.duplicate_entry";
  query = some (
    duplicate_visual_trajectory_query,
    ("source_name", source_name) ∷ ("dest_name", dest_name) ∷ [],
  );
  deadline = none;
  response = some "DuplicateVisualTrajectoryQueryResponse";
}

abbrev pub load_entry : Value → Request
load_entry visual_trajectory_name = record {
  fn_name = "visual_trajectory_library.load_entry";
  query =
      some (load_visual_trajectory_query, ("visual_trajectory_name", visual_trajectory_name) ∷ []);
  deadline = some 30000;
  response = some "LoadVisualTrajectoryQueryResponse";
}

abbrev pub add_object_entry : Value → Value → Value → Value → Value → Value → Request
add_object_entry visual_trajectory_name visual_trajectory_object_id start_idx end_idx reference_type
      disp_name =
    record {
      fn_name = "visual_trajectory_library.add_object_entry";
      query = some (
        add_visual_trajectory_object_query,
        ("name", visual_trajectory_name)
            ∷ ("object_id", visual_trajectory_object_id)
            ∷ ("start_idx", start_idx)
            ∷ ("end_idx", end_idx)
            ∷ ("reference_type", reference_type)
            ∷ ("disp_name", disp_name)
            ∷ [],
      );
      deadline = none;
      response = some "AddVisualTrajectoryObjectResponse";
    }

abbrev pub delete_object_entry : Value → Value → Request
delete_object_entry visual_trajectory_name visual_trajectory_object_id = record {
  fn_name = "visual_trajectory_library.delete_object_entry";
  query = some (
    delete_visual_trajectory_object_query,
    ("name", visual_trajectory_name) ∷ ("object_id", visual_trajectory_object_id) ∷ [],
  );
  deadline = none;
  response = some "DeleteVisualTrajectoryObjectResponse";
}

abbrev pub trim : Value → Value → Value → Request
trim name start_frame end_frame = record {
  fn_name = "visual_trajectory_library.trim";
  query = some (
    trim_visual_trajectory_query,
    ("name", name) ∷ ("start_frame", start_frame) ∷ ("end_frame", end_frame) ∷ [],
  );
  deadline = none;
  response = some "TrimVisualTrajectoryResponse";
}

abbrev pub restore_snapshot : Value → Request
restore_snapshot name = record {
  fn_name = "visual_trajectory_library.restore_snapshot";
  query = some (restore_visual_trajectory_snapshot_query, ("name", name) ∷ []);
  deadline = none;
  response = some "RestoreVisualTrajectorySnapshotResponse";
}

abbrev pub add_tool : Value → Value → Value → Value → Request
add_tool name object_id start_idx end_idx = record {
  fn_name = "visual_trajectory_library.add_tool";
  query = some (
    add_visual_trajectory_tool_query,
    ("visual_trajectory_name", name)
        ∷ ("object_id", object_id)
        ∷ ("start_idx", start_idx)
        ∷ ("end_idx", end_idx)
        ∷ [],
  );
  deadline = none;
  response = some "AddVisualTrajectoryToolResponse";
}

abbrev pub delete_tool : Value → Value → Value → Request
delete_tool name start_idx end_idx = record {
  fn_name = "visual_trajectory_library.delete_tool";
  query = some (
    delete_visual_trajectory_tool_query,
    ("visual_trajectory_name", name) ∷ ("start_idx", start_idx) ∷ ("end_idx", end_idx) ∷ [],
  );
  deadline = none;
  response = some "DeleteVisualTrajectoryToolResponse";
}

abbrev pub update_visual_trajectory_object_query : DataClass
update_visual_trajectory_object_query = record {
  name = "UpdateVisualTrajectoryObjectQuery";
  fields =
      required "name"
      ∷ required "object_id"
      ∷ optional "masks" unset
      ∷ optional "start_idx" unset
      ∷ optional "end_idx" unset
      ∷ optional "reference_type" unset
      ∷ optional "apriltag_metadata" unset
      ∷ optional "disp_name" unset
      ∷ [];
}

-- A field that the method does not set keeps its default, UNSET.
abbrev pub update_object : Value → Value → Value → Value → Value → Value → Value → Value → Request
update_object name object_id masks start_idx end_idx reference_type apriltag_metadata disp_name =
    record {
      fn_name = "visual_trajectory_library.update_object";
      query = some (
        update_visual_trajectory_object_query,
        ("name", name)
            ∷ ("object_id", object_id)
            ∷ ("masks", if_given masks masks unset)
            ∷ ("start_idx", if_given start_idx start_idx unset)
            ∷ ("end_idx", if_given end_idx end_idx unset)
            ∷ ("reference_type", if_given reference_type reference_type unset)
            ∷ ("apriltag_metadata", apriltag_metadata)
            ∷ ("disp_name", if_given disp_name disp_name unset)
            ∷ [],
      );
      deadline = none;
      response = some "UpdateVisualTrajectoryObjectResponse";
    }

-- Every request of these wrappers, for any arguments.
abbrev pub requests : (String → Value) → ℕ → Option ℕ → List Request
requests v n t =
    list_entries
    ∷ add_entry (v "visual_trajectory") (v "allow_overwrite")
    ∷ delete_entry (v "visual_trajectory_name")
    ∷ rename_entry (v "old_name") (v "new_name") (v "allow_overwrite")
    ∷ duplicate_entry (v "source_name") (v "dest_name")
    ∷ load_entry (v "visual_trajectory_name")
    ∷ add_object_entry (v "visual_trajectory_name") (v "visual_trajectory_object_id")
        (v "start_idx") (v "end_idx") (v "reference_type") (v "disp_name")
    ∷ delete_object_entry (v "visual_trajectory_name") (v "visual_trajectory_object_id")
    ∷ trim (v "name") (v "start_frame") (v "end_frame")
    ∷ restore_snapshot (v "name")
    ∷ add_tool (v "name") (v "object_id") (v "start_idx") (v "end_idx")
    ∷ delete_tool (v "name") (v "start_idx") (v "end_idx")
    ∷ update_object (v "name") (v "object_id") (v "masks") (v "start_idx") (v "end_idx")
        (v "reference_type") (v "apriltag_metadata") (v "disp_name")
    ∷ []
