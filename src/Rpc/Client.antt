-- ===== src/Rpc/Client.antt =====
-- rpc/client.py: `BaseClient`, as one of its calling threads sees it. The `peer` is what zmq makes
-- of the message sent; timeouts are in milliseconds.
use r2_labs.Base.{
  ℕ, zero, suc, ◌-◌, Bool, true, false, List, [], ◌∷◌, ◌++◌, Option, none, some, if◌then◌else◌,
  length, ◌==◌,
}
use r2_labs.Base.Text.{Text, codes}
use r2_labs.Rpc.Wire.{
  Bytes, Wire, RpcArgs, args, error, ping_reply, other, Loaded, loaded, not_pickle, raised,
}

-- A timeout may be negative: -1 means none.
pub data ℤ : Type 0 where
  pos negsuc : ℕ → ℤ

-- `pending` is a REQ socket that has sent and not received: it refuses to send.
pub record Socket : Type 0 where
  pub ident : ℕ
  pub pending : Bool
  pub sndtimeo : ℤ
  pub rcvtimeo : ℤ

pub data ErrorLabel : Type 0 where
  timeout_label remote_label : ErrorLabel

pub record BaseClient : Type 0 where
  pub timeout : ℤ
  pub use_compression : Bool
  pub socket : Option Socket
  pub created : ℕ
  pub closed : List ℕ
  pub server_version : Option Text
  pub errors : List (Text × ErrorLabel)
  pub durations : List Text
  pub overheads : List (Text × ℕ)

pub data ZmqError : Type 0 where
  again : ZmqError
  zmq_error : ℕ → ZmqError

-- What becomes of a message: the frames of the reply and the time until it came, or an error of
-- `send` or of `recv`.
pub data Exchange : Type 0 where
  replied : Bytes → List Bytes → ℕ → Exchange
  send_failed recv_failed : ZmqError → Exchange

pub data Called : Type 0 where
  returned : Bytes → Called
  rpc_remote_error : Text → Called
  rpc_timeout_error : Called
  rpc_zmq_error : ℕ → Called
  other_exception : Called

unfoldable pub is_positive : ℤ → Bool
is_positive (ℤ.pos zero) = false
is_positive (ℤ.pos (suc n)) = true
is_positive (ℤ.negsuc n) = false

-- zmq's own default, no timeout, stays where the client sets none.
unfoldable pub default_timeout : ℤ → ℤ
unfolding is_positive
default_timeout t = if is_positive t then t else ℤ.negsuc 0

unfoldable pub init : ℤ → Bool → BaseClient
init timeout use_compression = record {
  timeout = timeout;
  use_compression = use_compression;
  socket = none;
  created = 0;
  closed = [];
  server_version = none;
  errors = [];
  durations = [];
  overheads = [];
}

unfoldable pub create_socket : BaseClient → Socket
unfolding default_timeout
create_socket c = record {
  ident = c.created;
  pending = false;
  sndtimeo = default_timeout c.timeout;
  rcvtimeo = default_timeout c.timeout;
}

unfoldable pub socket_or_new : Option Socket → BaseClient → BaseClient × Socket
unfolding create_socket
socket_or_new (some sock) c = (c, sock)
socket_or_new none c =
    let sock = create_socket c in (record c { socket = some sock; created = suc c.created }, sock)

unfoldable pub get_socket : BaseClient → BaseClient × Socket
unfolding socket_or_new
get_socket c = socket_or_new c.socket c

unfoldable pub close_socket : Option Socket → List ℕ → List ℕ
close_socket none closed = closed
close_socket (some sock) closed = closed ++ sock.ident ∷ []

unfoldable pub reset_socket : BaseClient → BaseClient
unfolding create_socket close_socket
reset_socket c = record c {
  closed = close_socket c.socket c.closed;
  socket = some (create_socket c);
  created = suc c.created;
}

-- `setsockopt` of both timeouts.
unfoldable pub set_timeouts : Option ℤ → Socket → Socket
set_timeouts none sock = sock
set_timeouts (some t) sock = record sock { sndtimeo = t; rcvtimeo = t }

-- The `finally`, on a socket that was not replaced.
unfoldable pub restore_timeouts : Option ℤ → ℤ → Socket → Socket
unfolding default_timeout
restore_timeouts none t sock = sock
restore_timeouts (some _) t sock = record sock {
  sndtimeo = default_timeout t;
  rcvtimeo = default_timeout t;
}

unfoldable pub count_error : Text → ErrorLabel → BaseClient → BaseClient
count_error fn l c = record c { errors = c.errors ++ (fn, l) ∷ [] }

unfoldable pub observe_duration : Text → BaseClient → BaseClient
observe_duration fn c = record c { durations = c.durations ++ fn ∷ [] }

-- The `except zmq.ZMQError`. `sock` is the socket as the error left it.
unfoldable pub on_zmq_error : Text → Socket → ZmqError → BaseClient → BaseClient × Called
unfolding reset_socket count_error observe_duration
on_zmq_error fn sock e c =
    let c' = reset_socket (record c { socket = some sock }) in
    elim e [
      | again ↦ (observe_duration fn (count_error fn timeout_label c'), rpc_timeout_error)
      | zmq_error code ↦ (c', rpc_zmq_error code)
    ]

module _ (w : Wire) where
  unfoldable pub payload : Bool → Option Bytes → Option Bytes
  payload compressed none = none
  payload compressed (some b) = some (if compressed then w.compress b else b)

  unfoldable pub request : Bool → Text → Option Bytes → RpcArgs
  unfolding payload
  request compressed fn fn_data = record {
    fn_name = fn;
    fn_args = payload compressed fn_data;
    use_compression = compressed;
    return_busy_time = some true;
  }

  unfoldable pub message : Bool → Text → Option Bytes → Bytes
  unfolding request
  message compressed fn fn_data = w.dumps (args (request compressed fn fn_data))

  -- Of the frames beyond the first the first is read and the others are drained.
  unfoldable pub server_busy : List Bytes → Option ℕ
  server_busy [] = none
  server_busy (busy_frame ∷ drained) =
      if length busy_frame == 8 then some (w.unpack_double busy_frame) else none

  unfoldable pub decoded : Bool → Bytes → Option Bytes
  decoded compressed b = if compressed then w.decompress b else some b

  unfoldable pub observe_overhead : Text → ℕ → Option ℕ → BaseClient → BaseClient
  observe_overhead fn took none c = c
  observe_overhead fn took (some busy) c = record c {
    overheads = c.overheads ++ (fn, took - busy) ∷ [];
  }

  unfoldable pub return_result : Text → ℕ → Option ℕ → Bytes → BaseClient → BaseClient × Called
  unfolding observe_overhead observe_duration
  return_result fn took busy b c =
      (observe_overhead fn took busy (observe_duration fn c), returned b)

  unfoldable pub judge_loaded :
      Loaded → Text → ℕ → Option ℕ → Bytes → BaseClient → BaseClient × Called
  unfolding return_result count_error observe_duration
  judge_loaded (loaded (error e)) fn took busy b c =
      (observe_duration fn (count_error fn remote_label c), rpc_remote_error e.message)
  judge_loaded (loaded (args a)) fn took busy b c = return_result fn took busy b c
  judge_loaded (loaded (ping_reply s v)) fn took busy b c = return_result fn took busy b c
  judge_loaded (loaded (other o)) fn took busy b c = return_result fn took busy b c
  judge_loaded not_pickle fn took busy b c = return_result fn took busy b c
  judge_loaded raised fn took busy b c = (c, other_exception)

  unfoldable pub judge_body : Option Bytes → Text → ℕ → Option ℕ → BaseClient → BaseClient × Called
  unfolding judge_loaded
  judge_body none fn took busy c = (c, other_exception)
  judge_body (some b) fn took busy c = judge_loaded (w.loads b) fn took busy b c

  -- The exchange on the thread's socket, from the first `setsockopt` to the end of the `finally`,
  -- and then the reading of the reply.
  unfoldable pub finish : Exchange → Option ℤ → Text → Socket → BaseClient → BaseClient × Called
  unfolding restore_timeouts judge_body decoded server_busy on_zmq_error
  finish (replied body extra took) timeout fn sock c =
      let done = restore_timeouts timeout c.timeout (record sock { pending = false }) in
      judge_body (decoded c.use_compression body) fn took (server_busy extra)
        (record c { socket = some done })
  finish (send_failed e) timeout fn sock c = on_zmq_error fn sock e c
  finish (recv_failed e) timeout fn sock c = on_zmq_error fn (record sock { pending = true }) e c

  -- EFSM
  abbrev pub efsm : ZmqError
  efsm = zmq_error 156384763

  -- A socket that awaits a reply refuses to send.
  unfoldable pub exchange : Socket → (Bytes → Exchange) → Bytes → Exchange
  exchange sock peer m = if sock.pending then send_failed efsm else peer m

  unfoldable pub call :
      Text → Option Bytes → Option ℤ → (Bytes → Exchange) → BaseClient → BaseClient × Called
  unfolding get_socket set_timeouts exchange finish message
  call fn fn_data timeout peer c =
      let m = message c.use_compression fn fn_data in
      let (c', found) = get_socket c in
      let sock = set_timeouts timeout found in finish (exchange sock peer m) timeout fn sock c'

  -- What `ping_server` does with the object it loads; an exception of `loads` is its own.
  unfoldable pub set_version : Loaded → BaseClient → BaseClient × Option Called
  set_version (loaded (ping_reply s version)) c = (record c { server_version = version }, none)
  set_version (loaded (args a)) c = (c, none)
  set_version (loaded (error e)) c = (c, none)
  set_version (loaded (other o)) c = (c, none)
  set_version not_pickle c = (c, some other_exception)
  set_version raised c = (c, some other_exception)

  unfoldable pub after_ping : Called → BaseClient → BaseClient × Option Called
  unfolding set_version
  after_ping (returned b) c = set_version (w.loads b) c
  after_ping (rpc_remote_error m) c = (c, some (rpc_remote_error m))
  after_ping rpc_timeout_error c = (c, some rpc_timeout_error)
  after_ping (rpc_zmq_error e) c = (c, some (rpc_zmq_error e))
  after_ping other_exception c = (c, some other_exception)

  -- `none` is a ping that raises nothing.
  unfoldable pub ping_server : (Bytes → Exchange) → BaseClient → BaseClient × Option Called
  unfolding call after_ping
  ping_server peer c = let (c', r) = call (codes "ping") none none peer c in after_ping r c'
