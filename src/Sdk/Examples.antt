-- ===== src/Sdk/Examples.antt =====
-- Wrappers that call a server over a concrete wire.
use Prim.Native.String.{String}
use r2_labs.Base.{is_some, ℕ, arith, ◌≡◌, refl, true, false, [], ◌∷◌, none, some, All}
use r2_labs.Base.Text.{Text, text_beq, codes}
use r2_labs.Base.Dict.{lookup, insert}
use r2_labs.Rpc.Wire.{Bytes, Object, other}
use r2_labs.Rpc.Sample.{wire, dumps}
use r2_labs.Rpc.Server.{
  BaseServer, Handler, Turn, result, exception, dispatch, dispatch_to, register_fn, init,
}
use r2_labs.Rpc.Client.{BaseClient, ℤ, init as new_client}
use r2_labs.Rpc.Readiness.{IsReady}
use r2_labs.Rpc.Delivery.{delivered, serve_message}
use r2_labs.Sdk.Value.{
  Value, null, flag, trajectory_motion_post_init, at_least, given_positive, value_of, thousandths,
  make_query, checked, post_init, Request, null, member, flag, DataClass, Keywords, construct,
  all_known, has_field, filled, first_value, cons_field,
}
use r2_labs.Sdk.Ports.{
  Parsed, natural, not_int, port, or_default, env_port, default_ports, offsets,
  default_ports-consecutive,
}
use r2_labs.Sdk.Behaviour.{initiate_trajectory_motion}
use r2_labs.Sdk.ExecMode.{set_execution_mode}
use r2_labs.Sdk.Forms.{IsAccepted, all_requests, requests-IsAccepted}
use r2_labs.Sdk.Call.{got, query_bytes, invoke, answer, invoke-serve}

requests-IsAccepted_example : All IsAccepted (all_requests (λ _. null) 15 none)
requests-IsAccepted_example = requests-IsAccepted (λ _. null) 15 none

-- The handler answers with the query's own bytes behind a 7.
abbrev pub set_mode : Handler ℕ
set_mode none h = (h, exception (codes "no query"))
set_mode (some b) h = (h, result (dumps (other (7 ∷ b))))

abbrev pub class_name : Object → String
class_name (other b) = "ExecutionModeQueryResponse"
class_name _ = "object"

abbrev pub dumps_fields : DataClass → Keywords → Bytes
dumps_fields c [] = []
dumps_fields c ((k, flag true) ∷ kws) = 1 ∷ dumps_fields c kws
dumps_fields c ((k, v) ∷ kws) = 0 ∷ dumps_fields c kws

abbrev pub server : BaseServer ℕ
server = register_fn set_mode (codes "exec_mode") (init wire none 0)

abbrev pub client : BaseClient
client = new_client (ℤ.pos 5000) false

abbrev pub turn : Turn
turn = record {
  stop_before = false;
  backlogged = false;
  stop_idle = false;
  message = [];
  elapsed = 10;
  busy = 12;
}

pub fresh-IsReady : IsReady client
unfolding new_client
fresh-IsReady = tt

abbrev teleop : Request
teleop = set_execution_mode (member "ExecutionMode.TELEOP") (flag true)

teleop-query : query_bytes class_name dumps_fields teleop.query ≡ some (some (0 ∷ 1 ∷ []))
unfolding query_bytes make_query checked post_init construct all_known has_field filled first_value
    cons_field lookup
teleop-query = refl

-- A speed of zero is refused by the query's `__post_init__`, and nothing is sent.
abbrev motion : Value → Request
motion speed =
    initiate_trajectory_motion null speed null (flag false) null (flag false) (thousandths 1000)
      (thousandths 50) (thousandths 200) null

zero_speed_refused : query_bytes class_name dumps_fields (motion (thousandths 0)).query ≡ none
unfolding query_bytes make_query checked post_init trajectory_motion_post_init at_least
    given_positive value_of construct all_known has_field filled first_value cons_field lookup
zero_speed_refused = refl

half_speed_sent :
    is_some (query_bytes class_name dumps_fields (motion (thousandths 500)).query) ≡ true
unfolding query_bytes make_query checked post_init trajectory_motion_post_init at_least
    given_positive value_of construct all_known has_field filled first_value cons_field lookup
half_speed_sent = refl

invoke-serve_example :
    (invoke class_name dumps_fields wire teleop
      (λ m. delivered (serve_message wire turn server m).1)
      client).1
    ≡ answer class_name dumps_fields wire teleop.response
        (dispatch wire (codes "exec_mode") (some (0 ∷ 1 ∷ [])) server).1
invoke-serve_example =
    invoke-serve class_name dumps_fields wire turn server teleop (some (0 ∷ 1 ∷ [])) client
      fresh-IsReady teleop-query

teleop_answer :
    answer class_name dumps_fields wire teleop.response
      (dispatch wire (codes "exec_mode") (some (0 ∷ 1 ∷ [])) server).1
    ≡ got (other (7 ∷ 0 ∷ 1 ∷ []))
unfolding dispatch dispatch_to register_fn init lookup insert text_beq
teleop_answer = refl

-- A number is written as one code point.
abbrev sample_str : ℕ → Text
sample_str n = n ∷ []

abbrev sample_int : Text → Parsed
sample_int (n ∷ []) = natural n
sample_int _ = not_int

unset_reads : sample_int (or_default none (7532 ∷ [])) ≡ natural 7532
unfolding or_default
unset_reads = refl

default_ports-consecutive_example :
    default_ports sample_int sample_str (env_port sample_int sample_str none (7532 ∷ [])) offsets
    ≡ port 7532 ∷ port 7533 ∷ port 7534 ∷ port 7535 ∷ port 7536 ∷ []
default_ports-consecutive_example =
    default_ports-consecutive sample_int sample_str (λ n. refl) none (7532 ∷ []) 7532 unset_reads
      (omega arith) (omega arith)
