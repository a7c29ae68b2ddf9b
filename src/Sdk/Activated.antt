-- ===== src/Sdk/Activated.antt =====
-- A change of mode against the server's handlers.
use Prim.Native.String.{String}
use mathlib.Core.Logic.{◌↔◌}
use r2_labs.Base.{◌≡◌, sym, ◌∙◌, true, Option, none, some}
use r2_labs.Base.Text.{codes}
use r2_labs.Rpc.Wire.{Bytes, Wire, Object}
use r2_labs.Rpc.Server.{BaseServer, Turn, dispatch}
use r2_labs.Rpc.Client.{BaseClient, Exchange}
use r2_labs.Rpc.Readiness.{IsReady, call-IsReady}
use r2_labs.Rpc.Delivery.{delivered, serve_message}
use r2_labs.Sdk.Value.{Request, flag, member, DataClass, Keywords}
use r2_labs.Sdk.ExecMode.{get_execution_mode, set_execution_mode}
use r2_labs.Sdk.Call.{Answer, got, rpc_call, query_bytes, invoke_with, invoke, answer, invoke-serve}
use r2_labs.Sdk.Activation.{response, change_mode, change_mode-response}

module _ (class_of : Object → String) (dumps_query : DataClass → Keywords → Bytes)
    (mode_of : Object → String) (w : Wire) where
  invoke_with-IsReady :
      (query : Option (Option Bytes)) (r : Request) (peer : Bytes → Exchange) (c : BaseClient)
      → IsReady c
      → IsReady (invoke_with class_of dumps_query query w r peer c).0
  unfolding invoke_with rpc_call
  invoke_with-IsReady none r peer c h = h
  invoke_with-IsReady (some query) r peer c h = call-IsReady w (codes r.fn_name) query _ peer c h

  invoke-IsReady :
      (r : Request) (peer : Bytes → Exchange) (c : BaseClient)
      → IsReady c
      → IsReady (invoke class_of dumps_query w r peer c).0
  unfolding invoke
  invoke-IsReady r peer c h = invoke_with-IsReady _ r peer c h

  module _ {H : Type 0} where
    -- What the server's handler of the mode, in its state, answers to a request.
    abbrev pub handled : Request → Option Bytes → BaseServer H → Answer
    handled r query s =
        answer class_of dumps_query w r.response (dispatch w (codes r.fn_name) query s).1

    -- If the caller's socket is ready, the queries' dataclass takes the arguments and a server takes
    -- up both calls, with whatever else between them, then a change to a mode returns an object
    -- exactly if the handler answers the first query with it and the second with an object that
    -- is in the mode, both of the response's class.
    pub change_mode-serve :
        (mode : String) (o : Object) (first later : Option Bytes) (t u : Turn) (s x : BaseServer H)
        (c : BaseClient)
        → IsReady c
        → query_bytes class_of dumps_query (set_execution_mode (member mode) (flag true)).query
          ≡ some first
        → query_bytes class_of dumps_query get_execution_mode.query ≡ some later
        → ((change_mode class_of dumps_query mode_of w mode
              (λ m. delivered (serve_message w t s m).1)
              (λ m. delivered (serve_message w u x m).1)
              c).1
            ≡ response o)
          ↔ ((handled (set_execution_mode (member mode) (flag true)) first s ≡ got o)
              × ((p : Object) × (handled get_execution_mode later x ≡ got p) × (mode_of p ≡ mode)))
    change_mode-serve mode o first later t u s x c h f l =
        let set = set_execution_mode (member mode) (flag true) in
        let peer : Bytes → Exchange = λ m. delivered (serve_message w t s m).1 in
        let c' = (invoke class_of dumps_query w set peer c).0 in
        let a = invoke-serve class_of dumps_query w t s set first c h f in
        let b =
          invoke-serve class_of dumps_query w u x get_execution_mode later c'
            (invoke-IsReady set peer c h) l in
        let both =
          change_mode-response class_of dumps_query mode_of w mode o peer
            (λ m. delivered (serve_message w u x m).1) c in
        (
          λ q. let (d, (p, e, m)) = both.0 q in (sym a ∙ d, (p, sym b ∙ e, m)),
          λ q. let (d, (p, e, m)) = q in both.1 (a ∙ d, (p, b ∙ e, m)),
        )
