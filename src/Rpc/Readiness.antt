-- ===== src/Rpc/Readiness.antt =====
-- A calling thread's socket is ready for the next call, whatever became of the last one.
use r2_labs.Base.{ℕ, ◌≡◌, refl, true, false, Option, none, some, arith, Option-cases, inl, inr}
use r2_labs.Base.Text.{Text}
use r2_labs.Rpc.Wire.{Bytes, Wire, Loaded}
use r2_labs.Rpc.Client.{
  ℤ, Socket, BaseClient, ZmqError, Exchange, default_timeout, create_socket, socket_or_new,
  get_socket, reset_socket, set_timeouts, restore_timeouts, count_error, observe_duration,
  on_zmq_error, message, server_busy, decoded, observe_overhead, return_result, judge_loaded,
  judge_body, finish, exchange, call,
}

-- The socket may send, and has the default timeouts.
abbrev pub IsIdle : ℤ → Option Socket → Type 0
IsIdle t none = Unit
IsIdle t (some sock) =
    (sock.pending ≡ false)
    × (sock.sndtimeo ≡ default_timeout t)
    × (sock.rcvtimeo ≡ default_timeout t)

abbrev pub IsReady : BaseClient → Type 0
IsReady c = IsIdle c.timeout c.socket

module _ (w : Wire) where
  judge_loaded-IsReady :
      (l : Loaded) (fn : Text) (took : ℕ) (busy : Option ℕ) (b : Bytes) (c : BaseClient)
      → IsReady c
      → IsReady (judge_loaded w l fn took busy b c).0
  unfolding judge_loaded return_result observe_overhead observe_duration count_error
  judge_loaded-IsReady l fn took busy b c h = ground arith

  judge_body-IsReady :
      (b : Option Bytes) (fn : Text) (took : ℕ) (busy : Option ℕ) (c : BaseClient)
      → IsReady c
      → IsReady (judge_body w b fn took busy c).0
  unfolding judge_body
  judge_body-IsReady none fn took busy c h = h
  judge_body-IsReady (some b) fn took busy c h = judge_loaded-IsReady (w.loads b) fn took busy b c h

  on_zmq_error-IsReady :
      (fn : Text) (sock : Socket) (e : ZmqError) (c : BaseClient)
      → IsReady (on_zmq_error fn sock e c).0
  unfolding on_zmq_error reset_socket count_error observe_duration create_socket
  on_zmq_error-IsReady fn sock ZmqError.again c = (refl, refl, refl)
  on_zmq_error-IsReady fn sock (ZmqError.zmq_error n) c = (refl, refl, refl)

  restore-IsIdle :
      (timeout : Option ℤ) (t : ℤ) (sock : Socket)
      → IsIdle t (some sock)
      → IsIdle t (
          some
            (restore_timeouts timeout t (record (set_timeouts timeout sock) { pending = false })))
  unfolding restore_timeouts set_timeouts
  restore-IsIdle none t sock (p, q, r) = (refl, q, r)
  restore-IsIdle (some x) t sock h = (refl, refl, refl)

  finish-IsReady :
      (x : Exchange) (timeout : Option ℤ) (fn : Text) (sock : Socket) (c : BaseClient)
      → IsIdle c.timeout (some sock)
      → IsReady (finish w x timeout fn (set_timeouts timeout sock) c).0
  unfolding finish
  finish-IsReady (Exchange.replied body extra took) timeout fn sock c h =
      let idle =
        restore_timeouts timeout c.timeout
          (record (set_timeouts timeout sock) { pending = false }) in
      judge_body-IsReady (decoded w c.use_compression body) fn took (server_busy w extra)
        (record c { socket = some idle }) (restore-IsIdle timeout c.timeout sock h)
  finish-IsReady (Exchange.send_failed e) timeout fn sock c h =
      on_zmq_error-IsReady fn (set_timeouts timeout sock) e c
  finish-IsReady (Exchange.recv_failed e) timeout fn sock c h =
      on_zmq_error-IsReady fn (record (set_timeouts timeout sock) { pending = true }) e c

  pub get_socket-IsIdle :
      (c : BaseClient) → IsReady c → IsIdle (get_socket c).0.timeout (some (get_socket c).1)
  unfolding get_socket socket_or_new create_socket
  get_socket-IsIdle c h = elim (Option-cases c.socket) [
    | inl e ↦ ground (arith, e)
    | inr (sock, e) ↦ ground (arith, e)
  ]

  -- If the thread's socket, where it has one, is able to send and has the client's default
  -- timeouts, then it is so after a call, whatever its own timeout is and whether zmq delivers a
  -- reply, fails in `send` or fails in `recv`.
  pub call-IsReady :
      (fn : Text) (fn_data : Option Bytes) (timeout : Option ℤ) (peer : Bytes → Exchange)
      (c : BaseClient)
      → IsReady c
      → IsReady (call w fn fn_data timeout peer c).0
  unfolding call
  call-IsReady fn fn_data timeout peer c h =
      let (c', found) = get_socket c in
      let sent =
        exchange w (set_timeouts timeout found) peer (message w c.use_compression fn fn_data) in
      finish-IsReady sent timeout fn found c' (get_socket-IsIdle c h)
