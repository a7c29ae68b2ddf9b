-- ===== src/Sdk/ObjectLibrary/Queries.antt =====
-- sdk/rpc_api.py: the queries of `ObjectLibraryClient`.
use r2_labs.Base.{[], ◌∷◌, false}
use r2_labs.Sdk.Value.{flag, required, optional, DataClass}

abbrev pub load_object_query : DataClass
load_object_query = record { name = "LoadObjectQuery"; fields = required "object_name" ∷ [] }

abbrev pub delete_object_query : DataClass
delete_object_query = record { name = "DeleteObjectQuery"; fields = required "object_name" ∷ [] }

abbrev pub rename_object_query : DataClass
rename_object_query = record {
  name = "RenameObjectQuery";
  fields = required "old_name" ∷ required "new_name" ∷ optional "allow_overwrite" (flag false) ∷ [];
}

abbrev pub duplicate_object_query : DataClass
duplicate_object_query = record {
  name = "DuplicateObjectQuery";
  fields = required "source_name" ∷ required "dest_name" ∷ [];
}

abbrev pub object_segmentation_query : DataClass
object_segmentation_query = record {
  name = "ObjectSegmentationQuery";
  fields = required "frames" ∷ required "positive_points" ∷ required "negative_points" ∷ [];
}

abbrev pub add_object_views_query : DataClass
add_object_views_query = record {
  name = "AddObjectViewsQuery";
  fields =
      required "object_name"
      ∷ required "object_description"
      ∷ required "frames"
      ∷ required "segmentation_mask"
      ∷ [];
}

abbrev pub object_heatmap_query : DataClass
object_heatmap_query = record {
  name = "ObjectHeatmapQuery";
  fields = required "object_name" ∷ optional "auto_scale" (flag false) ∷ [];
}
