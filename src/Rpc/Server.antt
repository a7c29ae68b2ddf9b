-- ===== src/Rpc/Server.antt =====
-- rpc/server.py: `BaseServer`. `H` is what the registered handlers work on; times are in
-- microseconds; the poll, the messages and the clock are what a `Turn` of the loop reads.
use r2_labs.Base.{
  ℕ, Bool, true, false, not, ◌&&◌, List, [], ◌∷◌, ◌++◌, Option, none, some, if◌then◌else◌,
}
use r2_labs.Base.Dict.{lookup, insert}
use r2_labs.Base.Text.{Text, text_eq, codes}
use r2_labs.Rpc.Wire.{Bytes, Wire, RpcArgs, args, error, ping_reply, Loaded, loaded}

-- What a handler does: bytes, or an exception, with its `str`.
pub data Handled : Type 0 where
  result : Bytes → Handled
  exception : Text → Handled

module _ (H : Type 0) where
  -- `none` is a call without an argument.
  abbrev pub Handler : Type 0
  Handler = Option Bytes → H → H × Handled

  -- The metrics are the list of their observations.
  pub record BaseServer : Type 0 where
    pub fn_registry : List (Text × Handler)
    pub stop_requested : Bool
    pub handlers : H
    pub requests : List Text
    pub backlogged_requests : List Text
    pub handler_durations : List (Text × ℕ)

unfoldable pub wants_busy_time : Option Bool → Bool
wants_busy_time none = false
wants_busy_time (some b) = b

-- What one pass of the loop reads: `stop` calls before the two tests of the flag, the poll, the
-- request and the clock.
pub record Turn : Type 0 where
  pub stop_before : Bool
  pub backlogged : Bool
  pub stop_idle : Bool
  pub message : Bytes
  pub elapsed : ℕ
  pub busy : ℕ

pub data Ending : Type 0 where
  serving stopped crashed : Ending

module _ (H : Type 0) where
  pub record Served : Type 0 where
    pub server : BaseServer H
    pub replies : List (List Bytes)
    pub ending : Ending

unfoldable pub add_reply : {H : Type 0} → List Bytes → Served H → Served H
add_reply r x = record x { replies = r ∷ x.replies }

unfoldable pub some_of : Option Bytes → Option (Option Bytes)
some_of none = none
some_of (some b) = some (some b)

module _ (w : Wire) where
  unfoldable pub result_bytes : Handled → Bytes
  result_bytes (result b) = b
  result_bytes (exception message) = w.dumps (error (record { message = message }))

  -- `none` is a payload that zstd refuses: the exception leaves the loop.
  unfoldable pub decompress_args : Bool → Option Bytes → Option (Option Bytes)
  unfolding some_of
  decompress_args compressed none = some none
  decompress_args false (some b) = some (some b)
  decompress_args true (some b) = some_of (w.decompress b)

  unfoldable pub reply_frames : RpcArgs → Bytes → ℕ → List Bytes
  unfolding wants_busy_time
  reply_frames a b busy =
      let body = if a.use_compression then w.compress b else b in
      if wants_busy_time a.return_busy_time then body ∷ w.pack_double busy ∷ [] else body ∷ []

module _ {H : Type 0} where
  unfoldable pub register_fn : Handler H → Text → BaseServer H → BaseServer H
  register_fn fn fn_name s = record s { fn_registry = insert fn_name fn s.fn_registry }

  unfoldable pub stop : BaseServer H → BaseServer H
  stop s = record s { stop_requested = true }

  -- The `finally`: the metrics of one call.
  unfoldable pub observe : Bool → Text → ℕ → BaseServer H → BaseServer H
  observe backlogged fn_name elapsed s = record s {
    requests = s.requests ++ fn_name ∷ [];
    backlogged_requests =
        if backlogged then s.backlogged_requests ++ fn_name ∷ [] else s.backlogged_requests;
    handler_durations = s.handler_durations ++ (fn_name, elapsed) ∷ [];
  }

  unfoldable pub stop_if : Bool → BaseServer H → BaseServer H
  unfolding stop
  stop_if b s = if b then stop s else s

module _ {H : Type 0} (w : Wire) where
  unfoldable pub ping : Option Text → Handler H
  ping version none h = (h, result (w.dumps (ping_reply (codes "ack") version)))
  ping version (some a) h =
      (h, exception (codes "BaseServer._ping() takes 1 positional argument but 2 were given"))

  unfoldable pub init : Option Text → H → BaseServer H
  unfolding register_fn
  init version h = register_fn (ping version) (codes "ping") (record {
    fn_registry = [];
    stop_requested = false;
    handlers = h;
    requests = [];
    backlogged_requests = [];
    handler_durations = [];
  })

  unfoldable pub dispatch_to : Option (Handler H) → Text → Option Bytes → H → H × Handled
  dispatch_to none fn_name fn_args h = (h, exception (w.repr fn_name))
  dispatch_to (some fn) fn_name fn_args h = fn fn_args h

  -- The `try`: the call of the handler, or its absence's KeyError.
  unfoldable pub dispatch : Text → Option Bytes → BaseServer H → H × Handled
  unfolding dispatch_to
  dispatch fn_name fn_args s = dispatch_to (lookup fn_name s.fn_registry) fn_name fn_args s.handlers

  unfoldable pub serve_decoded :
      RpcArgs → Option (Option Bytes) → Turn → BaseServer H → BaseServer H × Option (List Bytes)
  unfolding dispatch observe result_bytes reply_frames
  serve_decoded a none t s = (s, none)
  serve_decoded a (some fn_args) t s =
      let (h, r) = dispatch a.fn_name fn_args s in
      (
        observe t.backlogged a.fn_name t.elapsed (record s { handlers = h }),
        some (reply_frames w a (result_bytes w r) t.busy),
      )

  unfoldable pub serve_loaded : Loaded → Turn → BaseServer H → BaseServer H × Option (List Bytes)
  unfolding serve_decoded decompress_args
  serve_loaded (loaded (args a)) t s =
      serve_decoded a (decompress_args w a.use_compression a.fn_args) t s
  serve_loaded o t s = (s, none)

  -- One request; `none` is an exception that leaves the loop, the failed `assert` for one.
  unfoldable pub serve : Turn → BaseServer H → BaseServer H × Option (List Bytes)
  unfolding serve_loaded
  serve t s = serve_loaded (w.loads t.message) t s

  -- The loop over its turns: the last state, the replies in order, and how it ended.
  unfoldable pub run : List Turn → BaseServer H → Served H
  unfolding stop_if serve add_reply
  run [] s = record { server = s; replies = []; ending = serving }
  run (t ∷ ts) s =
      let s = stop_if t.stop_before s in
      let idle = if t.backlogged then s else stop_if t.stop_idle s in
      let (s', r) = serve t idle in
      let rest = run ts s' in
      if s.stop_requested
      then record { server = s; replies = []; ending = stopped }
      else if not t.backlogged && idle.stop_requested
      then record { server = idle; replies = []; ending = stopped }
      else elim r [
        | none ↦ record { server = s'; replies = []; ending = crashed }
        | some frames ↦ add_reply frames rest
      ]
