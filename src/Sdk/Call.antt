-- ===== src/Sdk/Call.antt =====
-- sdk/client.py: `_rpc_call` and what a wrapper makes of its answer, over the client and the server
-- of the RPC layer.
use Prim.Native.String.{String}
use package.text.Mathlib.Text.{◌==◌ as str_eq}
use r2_labs.Base.{ℕ, ◌≡◌, refl, Option, none, some, if◌then◌else◌}
use r2_labs.Base.Text.{Text, codes}
use r2_labs.Rpc.Wire.{
  Bytes, Wire, Object, args, error, ping_reply, other, Loaded, loaded, not_pickle, raised,
}
use r2_labs.Rpc.Server.{BaseServer, Handled, result, exception, Turn, dispatch}
use r2_labs.Rpc.Client.{
  ℤ, BaseClient, Exchange, Called, returned, rpc_remote_error, rpc_timeout_error, rpc_zmq_error,
  other_exception, call,
}
use r2_labs.Rpc.Readiness.{IsReady}
use r2_labs.Rpc.Delivery.{delivered, reading, seen, serve_message, call-serve}
use r2_labs.Sdk.Value.{DataClass, Keywords, Request, make_query}

-- How a wrapper ends: with an object, with what the call raised, with the `assert` on the class of
-- the response, or with the TypeError or the ValueError of the query's dataclass.
pub data Answer : Type 0 where
  got : Object → Answer
  call_raised : Called → Answer
  assertion_error query_error : Answer

unfoldable pub unpickled : Loaded → Answer
unpickled (loaded o) = got o
unpickled not_pickle = call_raised other_exception
unpickled raised = call_raised other_exception

unfoldable pub deserialized : Wire → Called → Answer
unfolding unpickled
deserialized w (returned b) = unpickled (w.loads b)
deserialized w (rpc_remote_error m) = call_raised (rpc_remote_error m)
deserialized w rpc_timeout_error = call_raised rpc_timeout_error
deserialized w (rpc_zmq_error e) = call_raised (rpc_zmq_error e)
deserialized w other_exception = call_raised other_exception

unfoldable pub rpc_call :
    Wire → Text → Option Bytes → Option ℤ → (Bytes → Exchange) → BaseClient → BaseClient × Answer
unfolding deserialized
rpc_call w fn_name query timeout peer c =
    let (c', r) = call w fn_name query timeout peer c in (c', deserialized w r)

-- `class_of` is the class of an object that pickle made, and `dumps_query` what it makes of the
-- instance of a query's dataclass.
module _ (class_of : Object → String) (dumps_query : DataClass → Keywords → Bytes) where
  unfoldable pub asserted : Option String → Answer → Answer
  asserted none a = a
  asserted (some c) (got o) = if str_eq (class_of o) c then got o else assertion_error
  asserted (some c) (call_raised x) = call_raised x
  asserted (some c) assertion_error = assertion_error
  asserted (some c) query_error = query_error

  unfoldable pub as_timeout : Option ℕ → Option ℤ
  as_timeout none = none
  as_timeout (some n) = some (ℤ.pos n)

  -- The query's bytes; none is the TypeError or the ValueError of its construction.
  unfoldable pub query_bytes : Option (DataClass × Keywords) → Option (Option Bytes)
  query_bytes none = some none
  query_bytes (some (c, kws)) = elim (make_query c kws) [
    | none ↦ none
    | some fields ↦ some (some (dumps_query c fields))
  ]

  unfoldable pub invoke_with :
      Option (Option Bytes) → Wire → Request → (Bytes → Exchange) → BaseClient → BaseClient × Answer
  unfolding rpc_call asserted as_timeout
  invoke_with none w r peer c = (c, query_error)
  invoke_with (some query) w r peer c =
      let (c', a) = rpc_call w (codes r.fn_name) query (as_timeout r.deadline) peer c in
      (c', asserted r.response a)

  -- A wrapper's body, for the request that it makes.
  unfoldable pub invoke : Wire → Request → (Bytes → Exchange) → BaseClient → BaseClient × Answer
  unfolding invoke_with query_bytes
  invoke w r peer c = invoke_with (query_bytes r.query) w r peer c

  -- What the caller is to get of an object, and where a handler returned bytes, or raised.
  abbrev pub of_class : Option String → Object → Answer
  of_class none o = got o
  of_class (some c) o = if str_eq (class_of o) c then got o else assertion_error

  abbrev pub answer_to : Option String → Loaded → Answer
  answer_to response (loaded (error e)) = call_raised (rpc_remote_error e.message)
  answer_to response (loaded (args a)) = of_class response (args a)
  answer_to response (loaded (ping_reply s v)) = of_class response (ping_reply s v)
  answer_to response (loaded (other b)) = of_class response (other b)
  answer_to response not_pickle = call_raised other_exception
  answer_to response raised = call_raised other_exception

  abbrev pub answer : Wire → Option String → Handled → Answer
  answer w response (result b) = answer_to response (w.loads b)
  answer w response (exception m) = call_raised (rpc_remote_error m)

  asserted-raised :
      (response : Option String) (x : Called) → asserted response (call_raised x) ≡ call_raised x
  unfolding asserted
  asserted-raised none x = refl
  asserted-raised (some c) x = refl

  asserted-got :
      (response : Option String) (o : Object) → asserted response (got o) ≡ of_class response o
  unfolding asserted
  asserted-got none o = refl
  asserted-got (some c) o = refl

  reading-answer :
      (w : Wire) (response : Option String) (b : Bytes) (l : Loaded)
      → w.loads b ≡ l
      → asserted response (deserialized w (reading l b)) ≡ answer_to response l
  unfolding deserialized unpickled
  reading-answer w response b (loaded (error e)) h = asserted-raised response _
  reading-answer w response b (loaded (args a)) h = rw h (asserted-got response (args a))
  reading-answer w response b (loaded (ping_reply s v)) h =
      rw h (asserted-got response (ping_reply s v))
  reading-answer w response b (loaded (other o)) h = rw h (asserted-got response (other o))
  reading-answer w response b not_pickle h = rw h (asserted-raised response other_exception)
  reading-answer w response b raised h = asserted-raised response other_exception

  seen-answer :
      (w : Wire) (response : Option String) (h : Handled)
      → asserted response (deserialized w (seen w h)) ≡ answer w response h
  unfolding deserialized
  seen-answer w response (result b) = reading-answer w response b (w.loads b) refl
  seen-answer w response (exception m) = asserted-raised response (rpc_remote_error m)

  module _ (w : Wire) {H : Type 0} (t : Turn) (s : BaseServer H) where
    -- If the caller's socket is ready and the query's dataclass accepts the wrapper's arguments, its
    -- `__post_init__` too, then
    -- a wrapper whose call the server takes up ends with the object that the handler registered
    -- under the remote name pickled, if that is of the class that the wrapper expects; with an
    -- assertion error, if it is of another; and with the call's own exception, if the handler raised,
    -- no handler is registered, or the bytes are a pickled RpcError or no pickle. The handler gets
    -- the pickled query, and nothing where the wrapper sends none.
    pub invoke-serve :
        (r : Request) (query : Option Bytes) (c : BaseClient)
        → IsReady c
        → query_bytes r.query ≡ some query
        → (invoke w r (λ m. delivered (serve_message w t s m).1) c).1
          ≡ answer w r.response (dispatch w (codes r.fn_name) query s).1
    unfolding invoke invoke_with rpc_call
    invoke-serve r query c h q =
        let sent = (call-serve w t s (codes r.fn_name) query (as_timeout r.deadline) c h).0 in
        rw (q, sent, seen-answer)
