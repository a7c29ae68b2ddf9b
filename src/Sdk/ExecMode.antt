-- ===== src/Sdk/ExecMode.antt =====
-- sdk/client.py: the wrappers of `ExecModeClient`, with their queries of sdk/rpc_api.py.
use Prim.Native.String.{String}
use r2_labs.Base.{List, [], ◌∷◌, Option, none, some, ℕ, true}
use r2_labs.Sdk.Value.{null, flag, optional, Value, DataClass, Request}

abbrev pub execution_mode_query : DataClass
execution_mode_query = record {
  name = "ExecutionModeQuery";
  fields = optional "new_mode" null ∷ optional "align_leader" (flag true) ∷ [];
}

abbrev pub get_execution_mode : Request
get_execution_mode = record {
  fn_name = "exec_mode";
  query = some (execution_mode_query, ("new_mode", null) ∷ []);
  deadline = none;
  response = some "ExecutionModeQueryResponse";
}

abbrev pub set_execution_mode : Value → Value → Request
set_execution_mode new_mode align_leader = record {
  fn_name = "exec_mode";
  query = some (execution_mode_query, ("new_mode", new_mode) ∷ ("align_leader", align_leader) ∷ []);
  deadline = none;
  response = some "ExecutionModeQueryResponse";
}

-- Every request of these wrappers, for any arguments.
abbrev pub requests : (String → Value) → ℕ → Option ℕ → List Request
requests v n t = get_execution_mode ∷ set_execution_mode (v "new_mode") (v "align_leader") ∷ []
