-- ===== src/Sdk/ModelServices.antt =====
-- sdk/client.py: the wrappers of `ModelServicesClient`, with their queries of sdk/rpc_api.py.
use Prim.Native.String.{String}
use r2_labs.Base.{List, [], ◌∷◌, Option, none, some, ℕ}
use r2_labs.Sdk.Value.{null, thousandths, required, optional, Value, DataClass, Request}

abbrev pub start_model_service_query : DataClass
start_model_service_query = record {
  name = "StartModelServiceQuery";
  fields = required "model_id" ∷ optional "port" null ∷ [];
}

abbrev pub stop_model_service_query : DataClass
stop_model_service_query = record {
  name = "StopModelServiceQuery";
  fields = required "model_id" ∷ [];
}

abbrev pub wait_model_services_query : DataClass
wait_model_services_query = record {
  name = "WaitModelServicesQuery";
  fields =
      optional "model_ids" null
      ∷ optional "timeout" (thousandths 120000)
      ∷ optional "poll_interval" (thousandths 1000)
      ∷ [];
}

abbrev pub start : Value → Value → Request
start model_id port = record {
  fn_name = "model_services.start";
  query = some (start_model_service_query, ("model_id", model_id) ∷ ("port", port) ∷ []);
  deadline = none;
  response = some "StartModelServiceResponse";
}

abbrev pub stop : Value → Request
stop model_id = record {
  fn_name = "model_services.stop";
  query = some (stop_model_service_query, ("model_id", model_id) ∷ []);
  deadline = none;
  response = none;
}

abbrev pub stop_all : Request
stop_all = record {
  fn_name = "model_services.stop_all";
  query = none;
  deadline = none;
  response = none;
}

abbrev pub get_all : Request
get_all = record {
  fn_name = "model_services.list";
  query = none;
  deadline = none;
  response = some "ListModelServicesResponse";
}

abbrev pub wait_until_ready : Value → ℕ → Value → Request
wait_until_ready model_ids timeout poll_interval = record {
  fn_name = "model_services.wait";
  query = some (
    wait_model_services_query,
    ("model_ids", model_ids)
        ∷ ("timeout", thousandths timeout)
        ∷ ("poll_interval", poll_interval)
        ∷ [],
  );
  deadline = some timeout;
  response = some "WaitModelServicesResponse";
}

-- Every request of these wrappers, for any arguments.
abbrev pub requests : (String → Value) → ℕ → Option ℕ → List Request
requests v n t =
    start (v "model_id") (v "port")
    ∷ stop (v "model_id")
    ∷ stop_all
    ∷ get_all
    ∷ wait_until_ready (v "model_ids") n (v "poll_interval")
    ∷ []
