-- ===== src/Sdk/Models.antt =====
-- sdk/client.py: the requests of `ModelsClient`, with their query of sdk/rpc_api.py.
use Prim.Native.String.{String}
use r2_labs.Base.{List, [], ◌∷◌, Option, none, some, ℕ}
use r2_labs.Sdk.Value.{required, Value, DataClass, Request}

abbrev pub load_model_query : DataClass
load_model_query = record { name = "LoadModelQuery"; fields = required "model_id" ∷ [] }

-- The request of `preload` for each of its models.
abbrev pub load : Value → Request
load model_id = record {
  fn_name = "models.load";
  query = some (load_model_query, ("model_id", model_id) ∷ []);
  deadline = none;
  response = some "LoadModelResponse";
}

abbrev pub get_status : Request
get_status = record {
  fn_name = "models.get_status";
  query = none;
  deadline = none;
  response = some "GetModelServerStatusResponse";
}

-- Every request of these wrappers, for any arguments.
abbrev pub requests : (String → Value) → ℕ → Option ℕ → List Request
requests v n t = load (v "model_id") ∷ get_status ∷ []
