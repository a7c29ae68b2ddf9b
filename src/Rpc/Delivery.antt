-- ===== src/Rpc/Delivery.antt =====
-- A call that a server serves: what the handler returned or raised reaches the caller.
use r2_labs.Base.{
  ◌≡◌, refl, ap, ◌∙◌, Bool, true, false, List, [], ◌∷◌, Option, none, some, arith, Bool-cases, inl,
  inr, ℕ, if◌then◌else◌,
}
use r2_labs.Base.Text.{Text}
use r2_labs.Rpc.Wire.{Bytes, Wire, RpcArgs, Object, Loaded}
use r2_labs.Rpc.Server.{
  BaseServer, Handled, Turn, dispatch, result_bytes, decompress_args, some_of, reply_frames,
  wants_busy_time, serve, serve_decoded, serve_loaded, observe,
}
use r2_labs.Rpc.Client.{
  ℤ, Socket, BaseClient, ZmqError, Exchange, Called, get_socket, socket_or_new, payload, request,
  message, decoded, judge_loaded, judge_body, return_result, finish, exchange, call, set_timeouts,
}
use r2_labs.Rpc.Readiness.{IsReady, get_socket-IsIdle}

-- zmq delivers a served request's frames, and no answer comes from a loop that has ended.
unfoldable pub delivered : Option (List Bytes) → Exchange
delivered none = Exchange.recv_failed ZmqError.again
delivered (some []) = Exchange.recv_failed ZmqError.again
delivered (some (body ∷ extra)) = Exchange.replied body extra 0

-- What the caller is to see of bytes that a handler returned, and of what a handler did.
abbrev pub reading : Loaded → Bytes → Called
reading (Loaded.loaded (Object.error e)) b = Called.rpc_remote_error e.message
reading (Loaded.loaded (Object.args a)) b = Called.returned b
reading (Loaded.loaded (Object.ping_reply s v)) b = Called.returned b
reading (Loaded.loaded (Object.other o)) b = Called.returned b
reading Loaded.not_pickle b = Called.returned b
reading Loaded.raised b = Called.other_exception

abbrev pub seen : Wire → Handled → Called
seen w (Handled.result b) = reading (w.loads b) b
seen w (Handled.exception m) = Called.rpc_remote_error m

module _ (w : Wire) where
  decompress-payload :
      (compressed : Bool) (d : Option Bytes)
      → decompress_args w compressed (payload w compressed d) ≡ some d
  unfolding decompress_args payload some_of
  decompress-payload compressed none = refl
  decompress-payload false (some b) = refl
  decompress-payload true (some b) = rw w.decompress-compress

  decoded-compressed :
      (compressed : Bool) (b : Bytes)
      → decoded w compressed (if compressed then w.compress b else b) ≡ some b
  unfolding decoded
  decoded-compressed false b = refl
  decoded-compressed true b = w.decompress-compress b

  judge_loaded-reading :
      (l : Loaded) (fn : Text) (took : ℕ) (busy : Option ℕ) (b : Bytes) (c : BaseClient)
      → (judge_loaded w l fn took busy b c).1 ≡ reading l b
  unfolding judge_loaded return_result
  judge_loaded-reading l fn took busy b c = ground arith

  judge_result-seen :
      (r : Handled) (fn : Text) (took : ℕ) (busy : Option ℕ) (c : BaseClient)
      → (judge_body w (some (result_bytes w r)) fn took busy c).1 ≡ seen w r
  unfolding judge_body result_bytes
  judge_result-seen (Handled.result b) fn took busy c =
      judge_loaded-reading (w.loads b) fn took busy b c
  judge_result-seen (Handled.exception m) fn took busy c =
      judge_loaded-reading (w.loads (w.dumps (Object.error (record { message = m })))) fn took busy
        (w.dumps (Object.error (record { message = m }))) c
      ∙ ap (λ l. reading l (w.dumps (Object.error (record { message = m }))))
          (w.loads-dumps (Object.error (record { message = m })))

  module _ {H : Type 0} (t : Turn) (s : BaseServer H) where
    abbrev pub serve_message : Bytes → BaseServer H × Option (List Bytes)
    serve_message m = serve w (record t { message = m }) s

    serve-message :
        (compressed : Bool) (fn : Text) (d : Option Bytes)
        → serve_message (message w compressed fn d) ≡ (
          observe t.backlogged fn t.elapsed (record s { handlers = (dispatch w fn d s).0 }),
          some (
              reply_frames w
                (request w compressed fn d)
                (result_bytes w (dispatch w fn d s).1)
                t.busy),
        )
    unfolding serve serve_loaded serve_decoded message request
    serve-message compressed fn d = rw (w.loads-dumps, decompress-payload)

    reply_frames-body :
        (a : RpcArgs) (b : Bytes) (busy : ℕ)
        → (extra : List Bytes) × (reply_frames w a b busy
            ≡ (if a.use_compression then w.compress b else b) ∷ extra)
    unfolding reply_frames
    reply_frames-body a b busy = elim (Bool-cases (wants_busy_time a.return_busy_time)) [
      | inl e ↦ (w.pack_double busy ∷ [], rw e)
      | inr e ↦ ([], rw e)
    ]

    finish-seen :
        (a : RpcArgs) (fn : Text) (r : Handled) (busy : ℕ) (timeout : Option ℤ) (sock : Socket)
        (c : BaseClient)
        → c.use_compression ≡ a.use_compression
        → (finish w
            (delivered (some (reply_frames w a (result_bytes w r) busy)))
            timeout
            fn
            sock
            c).1
          ≡ seen w r
    unfolding finish delivered
    finish-seen a fn r busy timeout sock c e =
        let (extra, q) = reply_frames-body a (result_bytes w r) busy in
        rw (q, e, decoded-compressed, judge_result-seen)

    exchange-idle :
        (sock : Socket) (timeout : Option ℤ) (peer : Bytes → Exchange) (m : Bytes)
        → sock.pending ≡ false
        → exchange w (set_timeouts timeout sock) peer m ≡ peer m
    unfolding exchange set_timeouts
    exchange-idle sock none peer m h = rw h
    exchange-idle sock (some x) peer m h = rw h

    get_socket-compression : (c : BaseClient) → (get_socket c).0.use_compression ≡ c.use_compression
    unfolding get_socket socket_or_new
    get_socket-compression c = ground arith

    -- If the caller's socket is ready, a call that the server takes up is dispatched to the handler
    -- registered under its name, with the bytes that the caller gave, and changes the handlers'
    -- state as that does once; the caller gets the bytes that the handler returned (an exception
    -- where those are a pickled RpcError or unpickle to another exception), or an RpcRemoteError
    -- with the message of what the handler, or the lookup of a name that is not registered, raised.
    -- It is so with and without compression and whatever the call's own timeout is.
    pub call-serve :
        (fn : Text) (d : Option Bytes) (timeout : Option ℤ) (c : BaseClient)
        → IsReady c
        → ((call w fn d timeout (λ m. delivered (serve_message m).1) c).1
            ≡ seen w (dispatch w fn d s).1)
          × ((serve_message (message w c.use_compression fn d)).0.handlers ≡ (dispatch w fn d s).0)
    unfolding call observe request
    call-serve fn d timeout c h =
        let (c', found) = get_socket c in
        let peer : Bytes → Exchange = λ m. delivered (serve_message m).1 in
        let q = serve-message c.use_compression fn d in
        (
          rw (
            exchange-idle found timeout peer (message w c.use_compression fn d)
                (get_socket-IsIdle w c h).0,
            q,
            finish-seen (request w c.use_compression fn d) fn (dispatch w fn d s).1 t.busy timeout
                (set_timeouts timeout found) c' (get_socket-compression c),
          ),
          rw q,
        )
