-- ===== src/Stream/Client.antt =====
-- rpc/stream_client.py: `BaseStreamClient`. A pass of the owner thread's loop is a function from
-- what the poller and the clock answered to the calls that it makes. Time is in milliseconds.
use r2_labs.Base.{
  ℕ, ◌+◌, Bool, true, false, not, ◌&&◌, List, [], ◌∷◌, ◌++◌, Option, none, some, if◌then◌else◌, leb,
}

-- _ANNOUNCE_INTERVAL_SEC
abbrev pub announce_interval : ℕ
announce_interval = 500

-- DEFAULT_STALE_AFTER_SEC
abbrev pub default_stale_after : ℕ
default_stale_after = 2500

pub record StreamClient : Type 0 where
  pub stale_after : ℕ
  pub is_stale : Bool
  pub last_announce : ℕ
  pub last_recv : ℕ

-- What the loop does: `live` is the log line at the first frame after silence, `delivers` a call of
-- `on_snapshot`, `goes_stale` a call of `on_stale`.
pub data Event : Type 0 where
  announces live goes_stale : Event
  delivers : List ℕ → Event

-- `_receive_until_stopped` up to its loop.
unfoldable pub begin : ℕ → ℕ → StreamClient × List Event
begin stale_after now = (
  record { stale_after = stale_after; is_stale = true; last_announce = now; last_recv = now },
  announces ∷ [],
)

-- The last frame of a message; an empty message is skipped.
unfoldable pub deliver : List (List ℕ) → List Event
deliver [] = []
deliver (f ∷ []) = delivers f ∷ []
deliver (f ∷ g ∷ fs) = deliver (g ∷ fs)

unfoldable pub drain : List (List (List ℕ)) → List Event
unfolding deliver
drain [] = []
drain (frames ∷ more) = deliver frames ++ drain more

-- What one round of the loop sees: the messages queued when the poller woke, if it woke for any,
-- and the clock after delivery and at the checks.
pub record Round : Type 0 where
  pub messages : Option (List (List (List ℕ)))
  pub received_at : ℕ
  pub now : ℕ

unfoldable pub receive_part :
    Option (List (List (List ℕ))) → ℕ → StreamClient → StreamClient × List Event
receive_part none received_at c = (c, [])
receive_part (some messages) received_at c = (
  record c { is_stale = false; last_recv = received_at },
  (if c.is_stale then live ∷ [] else []) ++ drain messages,
)

unfoldable pub announce_part : ℕ → StreamClient → StreamClient × List Event
announce_part now c =
    if leb (c.last_announce + announce_interval) now
    then (record c { last_announce = now }, announces ∷ [])
    else (c, [])

unfoldable pub stale_part : ℕ → StreamClient → StreamClient × List Event
stale_part now c =
    if not c.is_stale && leb (c.last_recv + c.stale_after) now
    then (record c { is_stale = true }, goes_stale ∷ [])
    else (c, [])

-- The body of the loop.
unfoldable pub round : Round → StreamClient → StreamClient × List Event
unfolding receive_part announce_part stale_part
round r c =
    let (c1, e1) = receive_part r.messages r.received_at c in
    let (c2, e2) = announce_part r.now c1 in
    let (c3, e3) = stale_part r.now c2 in (c3, e1 ++ (e2 ++ e3))

unfoldable pub rounds : List Round → StreamClient → StreamClient × List Event
unfolding round
rounds [] c = (c, [])
rounds (r ∷ rs) c = let (c', e) = round r c in let (c'', es) = rounds rs c' in (c'', e ++ es)

-- The owner thread and its socket, as the callers of `start` and `stop` see them.
pub record Owner : Type 0 where
  pub running : Bool
  pub stop_flag : Bool
  pub socket_open : Bool

unfoldable pub start : Owner → Owner
start o = if o.running then o else record o { running = true; stop_flag = false }

-- `joined` is whether the owner thread ended, and so closed its socket, within the bounded join. A
-- client without a thread closes the socket itself.
unfoldable pub stop : Owner → Bool → Owner
stop o joined =
    if o.running
    then record o {
      running = false;
      stop_flag = true;
      socket_open = if joined then false else o.socket_open;
    }
    else record o { stop_flag = true; socket_open = false }
