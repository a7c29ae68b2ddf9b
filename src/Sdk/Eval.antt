-- ===== src/Sdk/Eval.antt =====
-- sdk/client.py: the wrappers of `EvalClient`.
use Prim.Native.String.{String}
use r2_labs.Base.{List, [], ◌∷◌, Option, none, some, ℕ}
use r2_labs.Sdk.Value.{DataClass, Keywords, Request, Value, empty_list, null, number, optional, str}

abbrev pub start : Option ℕ → Request
start timeout = record {
  fn_name = "eval.start";
  query = none;
  deadline = timeout;
  response = some "EvalStartResponse";
}

abbrev pub advance_trial : Request
advance_trial = record {
  fn_name = "eval.advance_trial";
  query = none;
  deadline = none;
  response = some "EvalAdvanceResponse";
}

abbrev pub stop_trial_policy : Request
stop_trial_policy = record {
  fn_name = "eval.stop_trial_policy";
  query = none;
  deadline = none;
  response = some "EvalStopTrialPolicyResponse";
}

abbrev pub enable_teleop : Request
enable_teleop = record {
  fn_name = "eval.enable_teleop";
  query = none;
  deadline = none;
  response = some "EvalEnableTeleopResponse";
}

abbrev pub stop : Request
stop = record {
  fn_name = "eval.stop";
  query = none;
  deadline = none;
  response = some "EvalStopResponse";
}

abbrev pub discard : Request
discard = record {
  fn_name = "eval.discard";
  query = none;
  deadline = none;
  response = some "EvalStopResponse";
}

abbrev pub upload : Request
upload = record {
  fn_name = "eval.upload";
  query = none;
  deadline = none;
  response = some "EvalUploadResponse";
}

abbrev pub get_state : Request
get_state = record {
  fn_name = "eval.get_state";
  query = none;
  deadline = none;
  response = some "EvalStateResponse";
}

abbrev pub eval_config_query : DataClass
eval_config_query = record {
  name = "EvalConfigQuery";
  fields =
      optional "task" (str "")
      ∷ optional "location" (str "")
      ∷ optional "tags" empty_list
      ∷ optional "operator" (str "")
      ∷ optional "model_pool" empty_list
      ∷ optional "num_trials" (number 1)
      ∷ optional "warehouse_url" (str "")
      ∷ optional "start_trajectory" (str "")
      ∷ optional "setup_mode" (str "TELEOP")
      ∷ optional "timeout_seconds" null
      ∷ optional "obs_history_len" (number 1)
      ∷ optional "buffer_actions" (number 20)
      ∷ optional "action_offset" (number 0)
      ∷ optional "action_key" (str "action")
      ∷ [];
}

abbrev pub eval_record_outcome_query : DataClass
eval_record_outcome_query = record {
  name = "EvalRecordOutcomeQuery";
  fields = optional "outcome" (str "success") ∷ [];
}

abbrev pub eval_edit_trial_query : DataClass
eval_edit_trial_query = record {
  name = "EvalEditTrialQuery";
  fields = optional "trial_id" (str "") ∷ optional "outcome" (str "success") ∷ [];
}

abbrev pub eval_discard_trial_query : DataClass
eval_discard_trial_query = record {
  name = "EvalDiscardTrialQuery";
  fields = optional "trial_id" (str "") ∷ [];
}

-- Of a query that the caller makes, `query` is what its dataclass gets.
abbrev pub configure : Keywords → Request
configure query = record {
  fn_name = "eval.configure";
  query = some (eval_config_query, query);
  deadline = none;
  response = some "EvalConfigureResponse";
}

abbrev pub record_outcome : Keywords → Option ℕ → Request
record_outcome query timeout = record {
  fn_name = "eval.record_outcome";
  query = some (eval_record_outcome_query, query);
  deadline = timeout;
  response = some "EvalRecordOutcomeResponse";
}

abbrev pub edit_trial : Keywords → Request
edit_trial query = record {
  fn_name = "eval.edit_trial";
  query = some (eval_edit_trial_query, query);
  deadline = none;
  response = some "EvalEditTrialResponse";
}

abbrev pub discard_trial : Keywords → Request
discard_trial query = record {
  fn_name = "eval.discard_trial";
  query = some (eval_discard_trial_query, query);
  deadline = none;
  response = some "EvalDiscardTrialResponse";
}

-- Every request of these wrappers but those that send a caller's query, for any arguments.
abbrev pub requests : (String → Value) → ℕ → Option ℕ → List Request
requests v n t =
    start t
    ∷ advance_trial
    ∷ stop_trial_policy
    ∷ enable_teleop
    ∷ stop
    ∷ discard
    ∷ upload
    ∷ get_state
    ∷ []
