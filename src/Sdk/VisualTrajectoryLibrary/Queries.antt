-- ===== src/Sdk/VisualTrajectoryLibrary/Queries.antt =====
-- sdk/rpc_api.py: the queries of `VisualTrajectoryLibraryClient`.
use r2_labs.Base.{[], ◌∷◌, false}
use r2_labs.Sdk.Value.{null, flag, required, optional, DataClass}

abbrev pub add_visual_trajectory_query : DataClass
add_visual_trajectory_query = record {
  name = "AddVisualTrajectoryQuery";
  fields = required "visual_trajectory" ∷ optional "allow_overwrite" (flag false) ∷ [];
}

abbrev pub delete_visual_trajectory_query : DataClass
delete_visual_trajectory_query = record {
  name = "DeleteVisualTrajectoryQuery";
  fields = required "visual_trajectory_name" ∷ [];
}

abbrev pub rename_visual_trajectory_query : DataClass
rename_visual_trajectory_query = record {
  name = "RenameVisualTrajectoryQuery";
  fields = required "old_name" ∷ required "new_name" ∷ optional "allow_overwrite" (flag false) ∷ [];
}

abbrev pub duplicate_visual_trajectory_query : DataClass
duplicate_visual_trajectory_query = record {
  name = "DuplicateVisualTrajectoryQuery";
  fields = required "source_name" ∷ required "dest_name" ∷ [];
}

abbrev pub load_visual_trajectory_query : DataClass
load_visual_trajectory_query = record {
  name = "LoadVisualTrajectoryQuery";
  fields = required "visual_trajectory_name" ∷ [];
}

abbrev pub add_visual_trajectory_object_query : DataClass
add_visual_trajectory_object_query = record {
  name = "AddVisualTrajectoryObjectQuery";
  fields =
      required "name"
      ∷ required "object_id"
      ∷ required "start_idx"
      ∷ required "end_idx"
      ∷ required "reference_type"
      ∷ optional "disp_name" null
      ∷ [];
}

abbrev pub delete_visual_trajectory_object_query : DataClass
delete_visual_trajectory_object_query = record {
  name = "DeleteVisualTrajectoryObjectQuery";
  fields = required "name" ∷ required "object_id" ∷ [];
}

abbrev pub trim_visual_trajectory_query : DataClass
trim_visual_trajectory_query = record {
  name = "TrimVisualTrajectoryQuery";
  fields = required "name" ∷ required "start_frame" ∷ required "end_frame" ∷ [];
}

abbrev pub restore_visual_trajectory_snapshot_query : DataClass
restore_visual_trajectory_snapshot_query = record {
  name = "RestoreVisualTrajectorySnapshotQuery";
  fields = required "name" ∷ [];
}

abbrev pub add_visual_trajectory_tool_query : DataClass
add_visual_trajectory_tool_query = record {
  name = "AddVisualTrajectoryToolQuery";
  fields =
      required "visual_trajectory_name"
      ∷ required "object_id"
      ∷ required "start_idx"
      ∷ required "end_idx"
      ∷ [];
}

abbrev pub delete_visual_trajectory_tool_query : DataClass
delete_visual_trajectory_tool_query = record {
  name = "DeleteVisualTrajectoryToolQuery";
  fields = required "visual_trajectory_name" ∷ required "start_idx" ∷ required "end_idx" ∷ [];
}
