-- ===== src/Sdk/CollectData.antt =====
-- sdk/client.py: the wrappers of `CollectDataClient`, with their queries of sdk/rpc_api.py.
use Prim.Native.String.{String}
use r2_labs.Base.{List, [], ◌∷◌, Option, none, some, ℕ}
use r2_labs.Sdk.Value.{null, required, optional, Value, DataClass, Request}
use r2_labs.Sdk.EpisodeObserver.{set_is_human_query, set_task_description_query}

abbrev pub collect_data_prepare_query : DataClass
collect_data_prepare_query = record {
  name = "CollectDataPrepareQuery";
  fields =
      optional "continuous_teleop" null
      ∷ optional "start_trajectory" null
      ∷ optional "align_leader" null
      ∷ optional "align_timeout_seconds" null
      ∷ optional "align_threshold" null
      ∷ optional "align_raise_on_timeout" null
      ∷ optional "behaviour_wait_timeout_seconds" null
      ∷ optional "reset_period_seconds" null
      ∷ [];
}

abbrev pub collect_data_save_query : DataClass
collect_data_save_query = record {
  name = "CollectDataSaveQuery";
  fields = required "entry_prefix" ∷ [];
}

abbrev pub set_tags_query : DataClass
set_tags_query = record { name = "SetTagsQuery"; fields = required "tags" ∷ [] }

abbrev pub prepare : Value → Value → Value → Value → Value → Request
prepare continuous_teleop start_trajectory align_timeout_seconds align_threshold
      behaviour_wait_timeout_seconds =
    record {
      fn_name = "collect_data.prepare";
      query = some (
        collect_data_prepare_query,
        ("continuous_teleop", continuous_teleop)
            ∷ ("start_trajectory", start_trajectory)
            ∷ ("align_timeout_seconds", align_timeout_seconds)
            ∷ ("align_threshold", align_threshold)
            ∷ ("behaviour_wait_timeout_seconds", behaviour_wait_timeout_seconds)
            ∷ [],
      );
      deadline = none;
      response = some "CollectDataPrepareResponse";
    }

abbrev pub start : Request
start = record {
  fn_name = "collect_data.start";
  query = none;
  deadline = none;
  response = some "CollectDataStartResponse";
}

abbrev pub stop : Request
stop = record {
  fn_name = "collect_data.stop";
  query = none;
  deadline = none;
  response = some "CollectDataStopResponse";
}

abbrev pub save : Value → Request
save entry_prefix = record {
  fn_name = "collect_data.save";
  query = some (collect_data_save_query, ("entry_prefix", entry_prefix) ∷ []);
  deadline = some 30000;
  response = some "CollectDataSaveResponse";
}

abbrev pub discard : Request
discard = record {
  fn_name = "collect_data.discard";
  query = none;
  deadline = none;
  response = some "CollectDataDiscardResponse";
}

abbrev pub get_state : Request
get_state = record {
  fn_name = "collect_data.get_state";
  query = none;
  deadline = none;
  response = some "CollectDataStateResponse";
}

abbrev pub set_task_description : Value → Request
set_task_description description = record {
  fn_name = "collect_data.set_task_description";
  query = some (set_task_description_query, ("description", description) ∷ []);
  deadline = none;
  response = none;
}

abbrev pub set_tags : Value → Request
set_tags tags = record {
  fn_name = "collect_data.set_tags";
  query = some (set_tags_query, ("tags", tags) ∷ []);
  deadline = none;
  response = none;
}

abbrev pub set_is_human : Value → Request
set_is_human is_human = record {
  fn_name = "collect_data.set_is_human";
  query = some (set_is_human_query, ("is_human", is_human) ∷ []);
  deadline = none;
  response = none;
}

-- Every request of these wrappers, for any arguments.
abbrev pub requests : (String → Value) → ℕ → Option ℕ → List Request
requests v n t =
    prepare (v "continuous_teleop") (v "start_trajectory") (v "align_timeout_seconds")
      (v "align_threshold") (v "behaviour_wait_timeout_seconds")
    ∷ start
    ∷ stop
    ∷ save (v "entry_prefix")
    ∷ discard
    ∷ get_state
    ∷ set_task_description (v "description")
    ∷ set_tags (v "tags")
    ∷ set_is_human (v "is_human")
    ∷ []
