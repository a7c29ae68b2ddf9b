-- ===== src/Sdk/Session.antt =====
-- A robot at concrete inputs.
use Prim.Native.String.{String}
use mathlib.Core.Logic.{◌↔◌}
use r2_labs.Base.{ℕ, ◌≡◌, refl, true, false, [], ◌∷◌, map, none, some, All}
use r2_labs.Base.Text.{codes}
use r2_labs.Base.Dict.{lookup}
use r2_labs.Futures.State.{left, right, init as new_executor}
use r2_labs.Rpc.Wire.{Object, other, ping_reply}
use r2_labs.Rpc.Sample.{wire, dumps}
use r2_labs.Rpc.Client.{BaseClient, ℤ, replied, recv_failed, again, init}
use r2_labs.Rpc.Delivery.{delivered, serve_message}
use r2_labs.Sdk.Value.{
  make_query, checked, post_init, Value, flag, member, str, construct, all_known, has_field, filled,
  first_value, cons_field,
}
use r2_labs.Sdk.ExecMode.{get_execution_mode, set_execution_mode}
use r2_labs.Sdk.Call.{got, query_bytes}
use r2_labs.Sdk.Examples.{server, turn, client, class_name, dumps_fields, fresh-IsReady}
use r2_labs.Sdk.Activation.{response, change_mode}
use r2_labs.Sdk.Activated.{handled, change_mode-serve}
use r2_labs.Sdk.Arm.{submissions}
use r2_labs.Sdk.Scope.{Starts, submissions-apart}
use r2_labs.Sdk.Robot.{Peers, Config, Robot}

abbrev values : String → Value
values name = str name

submissions-apart_example :
    (map (λ s. s.initiate) (submissions left values none)
      ≡ map (λ s. s.initiate) (submissions right values (some 5000)))
    × All
        (λ s. All (λ u. Starts (new_executor {A = ℕ}) s u true) (submissions right values none))
        (submissions left values none)
unfolding new_executor
submissions-apart_example =
    submissions-apart (new_executor {A = ℕ}) refl refl left right values values none none

abbrev always_ready : Object → String
always_ready o = "ExecutionMode.READY"

abbrev ready : Object
ready = other (7 ∷ 0 ∷ 1 ∷ [])

set-query :
    query_bytes class_name dumps_fields
      (set_execution_mode (member "ExecutionMode.READY") (flag true)).query
    ≡ some (some (0 ∷ 1 ∷ []))
unfolding query_bytes make_query checked post_init construct all_known has_field filled first_value
    cons_field lookup
set-query = refl

get-query : query_bytes class_name dumps_fields get_execution_mode.query ≡ some (some (0 ∷ 1 ∷ []))
unfolding query_bytes make_query checked post_init construct all_known has_field filled first_value
    cons_field lookup
get-query = refl

change_mode-serve_example :
    ((change_mode class_name dumps_fields always_ready wire "ExecutionMode.READY"
        (λ m. delivered (serve_message wire turn server m).1)
        (λ m. delivered (serve_message wire turn server m).1)
        client).1
      ≡ response ready)
    ↔ ((handled class_name dumps_fields always_ready wire
            (set_execution_mode (member "ExecutionMode.READY") (flag true))
            (some (0 ∷ 1 ∷ []))
            server
          ≡ got ready)
        × ((p : Object) × (handled class_name dumps_fields always_ready wire get_execution_mode
                (some (0 ∷ 1 ∷ []))
                server
              ≡ got p)
            × (always_ready p ≡ "ExecutionMode.READY")))
change_mode-serve_example =
    change_mode-serve class_name dumps_fields always_ready wire "ExecutionMode.READY" ready
      (some (0 ∷ 1 ∷ [])) (some (0 ∷ 1 ∷ [])) turn turn server server client fresh-IsReady set-query
      get-query

abbrev silent : Peers
silent e m = recv_failed again

abbrev ping_answer : Peers
ping_answer e m = replied (dumps (ping_reply (codes "query server") none)) [] 20

abbrev config : Config
config = record {
  server_address = codes "tcp://a:7532";
  query_server_address = codes "tcp://a:7533";
  training_server_address = codes "tcp://a:7534";
  use_compression = false;
  timeout = ℤ.pos 5000;
  query_timeout = some (ℤ.pos 9000);
  primary_arm = left;
}

abbrev base : Robot
base = record {
  config = config;
  base_client = client;
  query_client = none;
  training_client = none;
  thread_clients = λ _. none;
}

abbrev reached : BaseClient
reached = record {
  timeout = ℤ.pos 9000;
  use_compression = false;
  socket =
      some (record { ident = 0; pending = false; sndtimeo = ℤ.pos 9000; rcvtimeo = ℤ.pos 9000 });
  created = 1;
  closed = [];
  server_version = none;
  errors = [];
  durations = codes "ping" ∷ [];
  overheads = [];
}
