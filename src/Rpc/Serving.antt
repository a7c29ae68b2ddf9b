-- ===== src/Rpc/Serving.antt =====
-- The server's loop answers each request once, and a ping brings the server's version.
use r2_labs.Base.{
  ◌≡◌, refl, sym, ap, subst, ◌+◌, ◌∙◌, false, List, [], ◌∷◌, Option, none, some, arith, suc, length,
  length-append, All,
}
use r2_labs.Base.Dict.{lookup}
use r2_labs.Base.Text.{Text, text_eq, codes}
use r2_labs.Rpc.Wire.{Bytes, Wire, RpcArgs, Object, Loaded}
use r2_labs.Rpc.Server.{
  BaseServer, Handled, Turn, Ending, Served, dispatch, decompress_args, serve, serve_decoded,
  serve_loaded, observe, ping, dispatch_to, stop_if, add_reply, run, reply_frames, result_bytes,
}
use r2_labs.Rpc.Client.{BaseClient, Called, call, set_version, after_ping, ping_server}
use r2_labs.Rpc.Readiness.{IsReady}
use r2_labs.Rpc.Delivery.{delivered, reading, seen, serve_message, call-serve}

module _ (w : Wire) where
  -- A turn that reads a request which unpickles to RpcArgs with a payload that zstd accepts, while
  -- nobody calls `stop`.
  pub record IsRequest (t : Turn) : Type 0 where
    pub request : RpcArgs
    pub payload : Option Bytes
    pub is_args : w.loads t.message ≡ Loaded.loaded (Object.args request)
    pub decompressed : decompress_args w request.use_compression request.fn_args ≡ some payload
    pub no_stop : t.stop_before ≡ false
    pub no_stop_idle : t.stop_idle ≡ false

  after_ping-version :
      (version : Option Text) (r : Called) (c : BaseClient)
      → r ≡ seen w (Handled.result (w.dumps (Object.ping_reply (codes "ack") version)))
      → after_ping w r c ≡ (record c { server_version = version }, none)
  unfolding after_ping set_version
  after_ping-version version r c e =
      let x = Object.ping_reply (codes "ack") version in
      let q = e ∙ ap (λ l. reading l (w.dumps x)) (w.loads-dumps x) in rw (q, w.loads-dumps)

  module _ {H : Type 0} where
    -- One reply for each turn, and one count.
    abbrev pub Answers : List Turn → BaseServer H → Served H → Type 0
    Answers ts s x =
        (length x.replies ≡ length ts)
        × (length x.server.requests ≡ length s.requests + length ts)
        × (x.ending ≡ Ending.serving)

    serve-request :
        (t : Turn) (s : BaseServer H) (q : IsRequest t)
        → serve w t s ≡ (
          observe t.backlogged q.request.fn_name t.elapsed
              (record s { handlers = (dispatch w q.request.fn_name q.payload s).0 }),
          some (
              reply_frames w q.request
                (result_bytes w (dispatch w q.request.fn_name q.payload s).1)
                t.busy),
        )
    unfolding serve serve_loaded serve_decoded
    serve-request t s q = rw (q.is_args, q.decompressed)

    run-request :
        (t : Turn) (ts : List Turn) (s : BaseServer H)
        → s.stop_requested ≡ false
        → (q : IsRequest t)
        → run w (t ∷ ts) s
          ≡ add_reply
              (reply_frames w q.request
                (result_bytes w (dispatch w q.request.fn_name q.payload s).1)
                t.busy)
              (run w ts (serve w t s).0)
    unfolding run stop_if
    run-request t ts s h q = ground (arith, h, q.no_stop, q.no_stop_idle, serve-request t s q)

    served-requests :
        (t : Turn) (s : BaseServer H) (q : IsRequest t)
        → length (serve w t s).0.requests ≡ suc (length s.requests)
    unfolding observe
    served-requests t s q =
        ap (λ x. length x.0.requests) (serve-request t s q)
        ∙ omega (arith, length-append s.requests (q.request.fn_name ∷ []))

    served-running :
        (t : Turn) (s : BaseServer H) (q : IsRequest t)
        → s.stop_requested ≡ false
        → (serve w t s).0.stop_requested ≡ false
    unfolding observe
    served-running t s q h = ap (λ x. x.0.stop_requested) (serve-request t s q) ∙ h

    -- While nobody calls `stop`, a server whose requests all unpickle to RpcArgs with payloads that
    -- zstd accepts sends exactly one reply for each of them, whatever their handlers raise, counts
    -- each once, and its loop does not end.
    pub run-Answers :
        (ts : List Turn) (s : BaseServer H)
        → s.stop_requested ≡ false
        → All IsRequest ts
        → Answers ts s (run w ts s)
    unfolding run add_reply
    run-Answers [] s h q = (refl, omega arith, refl)
    run-Answers (t ∷ ts) s h (q, qs) =
        let (m, n, e) = run-Answers ts (serve w t s).0 (served-running t s q h) qs in
        let k = served-requests t s q in
        subst (Answers (t ∷ ts) s) (sym (run-request t ts s h q)) (ap suc m, omega (arith, n, k), e)

    dispatch-ping :
        (version : Option Text) (s : BaseServer H)
        → lookup (codes "ping") s.fn_registry ≡ some (ping w version)
        → (dispatch w (codes "ping") none s).1
          ≡ Handled.result (w.dumps (Object.ping_reply (codes "ack") version))
    unfolding dispatch dispatch_to ping
    dispatch-ping version s k = rw k

    -- If the client's socket is ready, the server still has its own ping handler, then a ping that the server serves raises
    -- nothing and leaves the server's version with the client.
    pub ping_server-version :
        (version : Option Text) (t : Turn) (s : BaseServer H) (c : BaseClient)
        → IsReady c
        → lookup (codes "ping") s.fn_registry ≡ some (ping w version)
        → ((ping_server w (λ m. delivered (serve_message w t s m).1) c).0.server_version ≡ version)
          × ((ping_server w (λ m. delivered (serve_message w t s m).1) c).1 ≡ none)
    unfolding ping_server
    ping_server-version version t s c h k =
        let pinged = call w (codes "ping") none none (λ m. delivered (serve_message w t s m).1) c in
        let q =
          (call-serve w t s (codes "ping") none none c h).0
          ∙ ap (seen w) (dispatch-ping version s k) in
        let z = after_ping-version version pinged.1 pinged.0 q in
        (ap (λ x. x.0.server_version) z, ap (λ x. x.1) z)
