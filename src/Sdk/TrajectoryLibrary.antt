-- ===== src/Sdk/TrajectoryLibrary.antt =====
-- sdk/client.py: the wrappers of `TrajectoryLibraryClient`, with their queries of sdk/rpc_api.py.
use Prim.Native.String.{String}
use r2_labs.Base.{List, [], ◌∷◌, Option, none, some, ℕ, false}
use r2_labs.Sdk.Value.{flag, required, optional, Value, DataClass, Request}

abbrev pub add_trajectory_query : DataClass
add_trajectory_query = record {
  name = "AddTrajectoryQuery";
  fields = required "trajectory" ∷ optional "allow_overwrite" (flag false) ∷ [];
}

abbrev pub delete_trajectory_query : DataClass
delete_trajectory_query = record {
  name = "DeleteTrajectoryQuery";
  fields = required "trajectory_name" ∷ [];
}

abbrev pub rename_trajectory_query : DataClass
rename_trajectory_query = record {
  name = "RenameTrajectoryQuery";
  fields = required "old_name" ∷ required "new_name" ∷ optional "allow_overwrite" (flag false) ∷ [];
}

abbrev pub duplicate_trajectory_query : DataClass
duplicate_trajectory_query = record {
  name = "DuplicateTrajectoryQuery";
  fields = required "source_name" ∷ required "dest_name" ∷ [];
}

abbrev pub load_trajectory_query : DataClass
load_trajectory_query = record {
  name = "LoadTrajectoryQuery";
  fields = required "trajectory_name" ∷ [];
}

abbrev pub list_entries : Request
list_entries = record {
  fn_name = "trajectory_library.list_entries";
  query = none;
  deadline = none;
  response = some "ListTrajectoriesResponse";
}

abbrev pub add_entry : Value → Value → Request
add_entry trajectory allow_overwrite = record {
  fn_name = "trajectory_library.add_entry";
  query = some (
    add_trajectory_query,
    ("trajectory", trajectory) ∷ ("allow_overwrite", allow_overwrite) ∷ [],
  );
  deadline = none;
  response = some "AddTrajectoryQueryResponse";
}

abbrev pub delete_entry : Value → Request
delete_entry trajectory_name = record {
  fn_name = "trajectory_library.delete_entry";
  query = some (delete_trajectory_query, ("trajectory_name", trajectory_name) ∷ []);
  deadline = none;
  response = some "DeleteTrajectoryQueryResponse";
}

abbrev pub rename_entry : Value → Value → Value → Request
rename_entry old_name new_name allow_overwrite = record {
  fn_name = "trajectory_library.rename_entry";
  query = some (
    rename_trajectory_query,
    ("old_name", old_name) ∷ ("new_name", new_name) ∷ ("allow_overwrite", allow_overwrite) ∷ [],
  );
  deadline = none;
  response = some "RenameTrajectoryQueryResponse";
}

abbrev pub duplicate_entry : Value → Value → Request
duplicate_entry source_name dest_name = record {
  fn_name = "trajectory_library.duplicate_entry";
  query =
      some
        (duplicate_trajectory_query, ("source_name", source_name) ∷ ("dest_name", dest_name) ∷ []);
  deadline = none;
  response = some "DuplicateTrajectoryQueryResponse";
}

abbrev pub load_entry : Value → Request
load_entry trajectory_name = record {
  fn_name = "trajectory_library.load_entry";
  query = some (load_trajectory_query, ("trajectory_name", trajectory_name) ∷ []);
  deadline = none;
  response = some "LoadTrajectoryQueryResponse";
}

-- Every request of these wrappers, for any arguments.
abbrev pub requests : (String → Value) → ℕ → Option ℕ → List Request
requests v n t =
    list_entries
    ∷ add_entry (v "trajectory") (v "allow_overwrite")
    ∷ delete_entry (v "trajectory_name")
    ∷ rename_entry (v "old_name") (v "new_name") (v "allow_overwrite")
    ∷ duplicate_entry (v "source_name") (v "dest_name")
    ∷ load_entry (v "trajectory_name")
    ∷ []
