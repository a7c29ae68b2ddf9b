-- ===== src/Sdk/VisualPoseLibrary.antt =====
-- sdk/client.py: the wrappers of `VisualPoseLibraryClient`, with their queries of sdk/rpc_api.py.
use Prim.Native.String.{String}
use r2_labs.Base.{List, [], ◌∷◌, Option, none, some, ℕ, false}
use r2_labs.Sdk.Value.{flag, made, if_given, required, optional, Value, DataClass, Request}

abbrev pub add_visual_pose_query : DataClass
add_visual_pose_query = record {
  name = "AddVisualPoseQuery";
  fields = required "pose" ∷ optional "allow_overwrite" (flag false) ∷ [];
}

abbrev pub delete_visual_pose_query : DataClass
delete_visual_pose_query = record {
  name = "DeleteVisualPoseQuery";
  fields = required "pose_name" ∷ [];
}

abbrev pub rename_visual_pose_query : DataClass
rename_visual_pose_query = record {
  name = "RenameVisualPoseQuery";
  fields = required "old_name" ∷ required "new_name" ∷ optional "allow_overwrite" (flag false) ∷ [];
}

abbrev pub duplicate_visual_pose_query : DataClass
duplicate_visual_pose_query = record {
  name = "DuplicateVisualPoseQuery";
  fields = required "source_name" ∷ required "dest_name" ∷ [];
}

abbrev pub load_visual_pose_query : DataClass
load_visual_pose_query = record { name = "LoadVisualPoseQuery"; fields = required "pose_name" ∷ [] }

abbrev pub visual_reference_segmentation_query : DataClass
visual_reference_segmentation_query = record {
  name = "VisualReferenceSegmentationQuery";
  fields = required "frame" ∷ required "positive_points" ∷ required "negative_points" ∷ [];
}

abbrev pub list_entries : Request
list_entries = record {
  fn_name = "visual_pose_library.list_entries";
  query = none;
  deadline = none;
  response = some "ListVisualPosesResponse";
}

abbrev pub add_entry : Value → Value → Request
add_entry pose allow_overwrite = record {
  fn_name = "visual_pose_library.add_entry";
  query = some (add_visual_pose_query, ("pose", pose) ∷ ("allow_overwrite", allow_overwrite) ∷ []);
  deadline = none;
  response = some "AddVisualPoseQueryResponse";
}

abbrev pub delete_entry : Value → Request
delete_entry pose_name = record {
  fn_name = "visual_pose_library.delete_entry";
  query = some (delete_visual_pose_query, ("pose_name", pose_name) ∷ []);
  deadline = none;
  response = some "DeleteVisualPoseQueryResponse";
}

abbrev pub rename_entry : Value → Value → Value → Request
rename_entry old_name new_name allow_overwrite = record {
  fn_name = "visual_pose_library.rename_entry";
  query = some (
    rename_visual_pose_query,
    ("old_name", old_name) ∷ ("new_name", new_name) ∷ ("allow_overwrite", allow_overwrite) ∷ [],
  );
  deadline = none;
  response = some "RenameVisualPoseQueryResponse";
}

abbrev pub duplicate_entry : Value → Value → Request
duplicate_entry source_name dest_name = record {
  fn_name = "visual_pose_library.duplicate_entry";
  query =
      some
        (duplicate_visual_pose_query, ("source_name", source_name) ∷ ("dest_name", dest_name) ∷ []);
  deadline = none;
  response = some "DuplicateVisualPoseQueryResponse";
}

abbrev pub load_entry : Value → Request
load_entry pose_name = record {
  fn_name = "visual_pose_library.load_entry";
  query = some (load_visual_pose_query, ("pose_name", pose_name) ∷ []);
  deadline = none;
  response = some "LoadVisualPoseQueryResponse";
}

abbrev pub segment_reference : Value → Value → Value → Option ℕ → Request
segment_reference frame positive_points negative_points timeout = record {
  fn_name = "visual_pose_library.segment_reference";
  query = some (
    visual_reference_segmentation_query,
    ("frame", frame)
        ∷ (
          "positive_points",
          if_given positive_points positive_points (made "np.zeros((0, 2), dtype=np.int32)"),
        )
        ∷ (
          "negative_points",
          if_given negative_points negative_points (made "np.zeros((0, 2), dtype=np.int32)"),
        )
        ∷ [],
  );
  deadline = timeout;
  response = some "VisualReferenceSegmentationQueryResponse";
}

-- Every request of these wrappers, for any arguments.
abbrev pub requests : (String → Value) → ℕ → Option ℕ → List Request
requests v n t =
    list_entries
    ∷ add_entry (v "pose") (v "allow_overwrite")
    ∷ delete_entry (v "pose_name")
    ∷ rename_entry (v "old_name") (v "new_name") (v "allow_overwrite")
    ∷ duplicate_entry (v "source_name") (v "dest_name")
    ∷ load_entry (v "pose_name")
    ∷ segment_reference (v "frame") (v "positive_points") (v "negative_points") t
    ∷ []
