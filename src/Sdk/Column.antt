-- ===== src/Sdk/Column.antt =====
-- sdk/client.py: the wrappers of `ColumnClient`, with their queries of sdk/rpc_api.py.
use Prim.Native.String.{String}
use r2_labs.Base.{List, [], ◌∷◌, Option, none, some, ℕ, false}
use r2_labs.Sdk.Value.{flag, required, optional, Value, DataClass, Request}

abbrev pub column_go_to_query : DataClass
column_go_to_query = record { name = "ColumnGoToQuery"; fields = required "height_mm" ∷ [] }

abbrev pub column_clear_fault_query : DataClass
column_clear_fault_query = record {
  name = "ColumnClearFaultQuery";
  fields = optional "force" (flag false) ∷ [];
}

abbrev pub cancel_ticket_query : DataClass
cancel_ticket_query = record { name = "CancelTicketQuery"; fields = required "ticket_id" ∷ [] }

abbrev pub get_state : Request
get_state = record {
  fn_name = "column.get_state";
  query = none;
  deadline = none;
  response = some "ColumnStateResponse";
}

abbrev pub initiate_go_to : Value → Request
initiate_go_to height_mm = record {
  fn_name = "column.go_to";
  query = some (column_go_to_query, ("height_mm", height_mm) ∷ []);
  deadline = none;
  response = some "ColumnMotionInitiatedResponse";
}

abbrev pub initiate_calibrate : Request
initiate_calibrate = record {
  fn_name = "column.calibrate";
  query = none;
  deadline = none;
  response = some "ColumnMotionInitiatedResponse";
}

abbrev pub stop : Request
stop = record {
  fn_name = "column.stop";
  query = none;
  deadline = none;
  response = some "ColumnCommandResponse";
}

abbrev pub clear_fault : Value → Request
clear_fault force = record {
  fn_name = "column.clear_fault";
  query = some (column_clear_fault_query, ("force", force) ∷ []);
  deadline = none;
  response = some "ColumnCommandResponse";
}

abbrev pub cancel_ticket : Value → Request
cancel_ticket ticket_id = record {
  fn_name = "column.cancel_ticket";
  query = some (cancel_ticket_query, ("ticket_id", ticket_id) ∷ []);
  deadline = none;
  response = some "CancelTicketResponse";
}

-- Every request of these wrappers, for any arguments.
abbrev pub requests : (String → Value) → ℕ → Option ℕ → List Request
requests v n t =
    get_state
    ∷ initiate_go_to (v "height_mm")
    ∷ initiate_calibrate
    ∷ stop
    ∷ clear_fault (v "force")
    ∷ cancel_ticket (v "ticket_id")
    ∷ []
