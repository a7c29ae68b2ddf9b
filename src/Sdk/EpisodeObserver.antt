-- ===== src/Sdk/EpisodeObserver.antt =====
-- sdk/client.py: the wrappers of `EpisodeObserverClient`, with their queries of sdk/rpc_api.py.
use Prim.Native.String.{String}
use r2_labs.Base.{List, [], ◌∷◌, Option, none, some, ℕ}
use r2_labs.Sdk.Value.{required, Value, DataClass, Request}

abbrev pub episode_observer_save_query : DataClass
episode_observer_save_query = record {
  name = "EpisodeObserverSaveQuery";
  fields = required "entry_prefix" ∷ [];
}

abbrev pub set_task_description_query : DataClass
set_task_description_query = record {
  name = "SetTaskDescriptionQuery";
  fields = required "description" ∷ [];
}

abbrev pub set_is_human_query : DataClass
set_is_human_query = record { name = "SetIsHumanQuery"; fields = required "is_human" ∷ [] }

abbrev pub start : Request
start = record {
  fn_name = "episode_observer.start";
  query = none;
  deadline = none;
  response = none;
}

abbrev pub stop : Request
stop = record { fn_name = "episode_observer.stop"; query = none; deadline = none; response = none }

abbrev pub save : Value → Request
save entry_prefix = record {
  fn_name = "episode_observer.save";
  query = some (episode_observer_save_query, ("entry_prefix", entry_prefix) ∷ []);
  deadline = some 30000;
  response = none;
}

abbrev pub discard : Request
discard = record {
  fn_name = "episode_observer.discard";
  query = none;
  deadline = none;
  response = none;
}

abbrev pub get_state : Request
get_state = record {
  fn_name = "episode_observer.get_state";
  query = none;
  deadline = none;
  response = some "EpisodeObserverStateResponse";
}

abbrev pub set_task_description : Value → Request
set_task_description description = record {
  fn_name = "episode_observer.set_task_description";
  query = some (set_task_description_query, ("description", description) ∷ []);
  deadline = none;
  response = none;
}

abbrev pub set_is_human : Value → Request
set_is_human is_human = record {
  fn_name = "episode_observer.set_is_human";
  query = some (set_is_human_query, ("is_human", is_human) ∷ []);
  deadline = none;
  response = none;
}

-- Every request of these wrappers, for any arguments.
abbrev pub requests : (String → Value) → ℕ → Option ℕ → List Request
requests v n t =
    start
    ∷ stop
    ∷ save (v "entry_prefix")
    ∷ discard
    ∷ get_state
    ∷ set_task_description (v "description")
    ∷ set_is_human (v "is_human")
    ∷ []
