-- ===== src/Sdk/Zeroing.antt =====
-- sdk/client.py: the wrappers of `ZeroingClient`.
use Prim.Native.String.{String}
use r2_labs.Base.{List, [], ◌∷◌, Option, none, some, ℕ}
use r2_labs.Sdk.Value.{Value, Request}

abbrev pub get_status : Request
get_status = record {
  fn_name = "zeroing.get_status";
  query = none;
  deadline = none;
  response = some "ZeroingStatusResponse";
}

-- Every request of these wrappers, for any arguments.
abbrev pub requests : (String → Value) → ℕ → Option ℕ → List Request
requests v n t = get_status ∷ []
