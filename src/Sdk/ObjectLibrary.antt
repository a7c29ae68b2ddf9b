-- ===== src/Sdk/ObjectLibrary.antt =====
-- sdk/client.py: the wrappers of `ObjectLibraryClient`.
pub mod Queries
use Prim.Native.String.{String}
use r2_labs.Base.{List, [], ◌∷◌, Option, none, some, ℕ, true, false}
use r2_labs.Sdk.Value.{empty_list, or_else, as_list, Value, Request}
use r2_labs.Sdk.ObjectLibrary.Queries.{
  add_object_views_query, delete_object_query, duplicate_object_query, load_object_query,
  object_heatmap_query, object_segmentation_query, rename_object_query,
}

abbrev pub list_entries : Request
list_entries = record {
  fn_name = "object_library.list_entries";
  query = none;
  deadline = none;
  response = some "ListObjectsResponse";
}

abbrev pub load_entry : Value → Request
load_entry object_name = record {
  fn_name = "object_library.load_entry";
  query = some (load_object_query, ("object_name", object_name) ∷ []);
  deadline = none;
  response = some "LoadObjectQueryResponse";
}

abbrev pub delete_entry : Value → Request
delete_entry object_name = record {
  fn_name = "object_library.delete_entry";
  query = some (delete_object_query, ("object_name", object_name) ∷ []);
  deadline = none;
  response = some "DeleteObjectQueryResponse";
}

abbrev pub rename_entry : Value → Value → Value → Request
rename_entry old_name new_name allow_overwrite = record {
  fn_name = "object_library.rename_entry";
  query = some (
    rename_object_query,
    ("old_name", old_name) ∷ ("new_name", new_name) ∷ ("allow_overwrite", allow_overwrite) ∷ [],
  );
  deadline = none;
  response = some "RenameObjectQueryResponse";
}

abbrev pub duplicate_entry : Value → Value → Request
duplicate_entry source_name dest_name = record {
  fn_name = "object_library.duplicate_entry";
  query =
      some (duplicate_object_query, ("source_name", source_name) ∷ ("dest_name", dest_name) ∷ []);
  deadline = none;
  response = some "DuplicateObjectQueryResponse";
}

abbrev pub segment_object : Value → Value → Value → Option ℕ → Request
segment_object frames positive_points negative_points timeout = record {
  fn_name = "object_library.segment_object";
  query = some (
    object_segmentation_query,
    ("frames", frames)
        ∷ ("positive_points", as_list (or_else positive_points empty_list))
        ∷ ("negative_points", as_list (or_else negative_points empty_list))
        ∷ [],
  );
  deadline = timeout;
  response = some "ObjectSegmentationQueryResponse";
}

abbrev pub add_object_views : Value → Value → Value → Value → Option ℕ → Request
add_object_views object_name frames segmentation_mask object_description timeout = record {
  fn_name = "object_library.add_object_views";
  query = some (
    add_object_views_query,
    ("object_name", object_name)
        ∷ ("object_description", object_description)
        ∷ ("frames", frames)
        ∷ ("segmentation_mask", segmentation_mask)
        ∷ [],
  );
  deadline = timeout;
  response = some "AddObjectViewsQueryResponse";
}

abbrev pub get_heatmap : Value → Value → Option ℕ → Request
get_heatmap object_name auto_scale timeout = record {
  fn_name = "object_library.get_heatmap";
  query =
      some (object_heatmap_query, ("object_name", object_name) ∷ ("auto_scale", auto_scale) ∷ []);
  deadline = timeout;
  response = some "ObjectHeatmapResponse";
}

-- Every request of these wrappers, for any arguments.
abbrev pub requests : (String → Value) → ℕ → Option ℕ → List Request
requests v n t =
    list_entries
    ∷ load_entry (v "object_name")
    ∷ delete_entry (v "object_name")
    ∷ rename_entry (v "old_name") (v "new_name") (v "allow_overwrite")
    ∷ duplicate_entry (v "source_name") (v "dest_name")
    ∷ segment_object (v "frames") (v "positive_points") (v "negative_points") t
    ∷ add_object_views (v "object_name") (v "frames") (v "segmentation_mask")
        (v "object_description") t
    ∷ get_heatmap (v "object_name") (v "auto_scale") t
    ∷ []
