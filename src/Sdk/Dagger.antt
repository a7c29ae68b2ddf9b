-- ===== src/Sdk/Dagger.antt =====
-- sdk/client.py: the wrappers of `DaggerClient`.
use Prim.Native.String.{String}
use r2_labs.Base.{List, [], ◌∷◌, Option, none, some, ℕ}
use r2_labs.Sdk.Value.{
  DataClass, Keywords, Request, Value, null, number, optional, required, str, thousandths,
}

abbrev pub advance : Request
advance = record {
  fn_name = "dagger.advance";
  query = none;
  deadline = none;
  response = some "DaggerAdvanceResponse";
}

abbrev pub abort : Request
abort = record {
  fn_name = "dagger.abort";
  query = none;
  deadline = none;
  response = some "DaggerAbortResponse";
}

abbrev pub get_state : Request
get_state = record {
  fn_name = "dagger.get_state";
  query = none;
  deadline = none;
  response = some "DaggerStateResponse";
}

abbrev pub dagger_config_query : DataClass
dagger_config_query = record {
  name = "DaggerConfigQuery";
  fields =
      optional "service_address" (str "")
      ∷ optional "timeout_seconds" null
      ∷ optional "obs_history_len" (number 1)
      ∷ optional "buffer_actions" (number 20)
      ∷ optional "action_offset" (number 0)
      ∷ optional "action_key" (str "action")
      ∷ optional "start_trajectory" null
      ∷ optional "reset_period_seconds" null
      ∷ optional "termination_service_address" (str "")
      ∷ optional "termination_threshold" (thousandths 950)
      ∷ optional "termination_min_frames" (number 2)
      ∷ optional "termination_poll_interval_seconds" (thousandths 100)
      ∷ optional "behaviour_wait_timeout_seconds" (thousandths 30000)
      ∷ [];
}

abbrev pub dagger_finish_episode_query : DataClass
dagger_finish_episode_query = record {
  name = "DaggerFinishEpisodeQuery";
  fields = required "disposition" ∷ optional "entry_prefix" null ∷ [];
}

-- Of a query that the caller makes, `query` is what its dataclass gets.
abbrev pub configure : Keywords → Request
configure query = record {
  fn_name = "dagger.configure";
  query = some (dagger_config_query, query);
  deadline = none;
  response = some "DaggerConfigureResponse";
}

abbrev pub finish_episode : Keywords → Request
finish_episode query = record {
  fn_name = "dagger.finish_episode";
  query = some (dagger_finish_episode_query, query);
  deadline = some 120000;
  response = some "DaggerFinishEpisodeResponse";
}

-- Every request of these wrappers but those that send a caller's query, for any arguments.
abbrev pub requests : (String → Value) → ℕ → Option ℕ → List Request
requests v n t = advance ∷ abort ∷ get_state ∷ []
