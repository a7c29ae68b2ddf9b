-- ===== src/Stream/Server.antt =====
-- rpc/stream_server.py: `BaseStreamServer`. What the owner thread sends is returned as a list of
-- identities and payloads. Time is in milliseconds.
use r2_labs.Base.{ℕ, ◌+◌, Bool, true, false, List, [], ◌∷◌, Option, none, some, if◌then◌else◌, ltb}
use r2_labs.Base.Text.{Text, text_eq, text_beq, codes}
use r2_labs.Base.Dict.{insert, erase}

-- READY
abbrev pub ready_frame : List ℕ
ready_frame = codes "READY"

-- PEER_TIMEOUT_SEC
abbrev pub peer_timeout : ℕ
peer_timeout = 5000

pub record StreamServer : Type 0 where
  pub snapshot : Option (List ℕ)
  pub dirty : Bool
  pub peers : List (Text × ℕ)
  pub running : Bool
  pub stop_flag : Bool
  pub socket_open : Bool

unfoldable pub init : StreamServer
init = record {
  snapshot = none;
  dirty = false;
  peers = [];
  running = false;
  stop_flag = false;
  socket_open = true;
}

-- The two parts of `set_snapshot`: under the lock, and the flag after it.
unfoldable pub set_snapshot_locked : StreamServer → List ℕ → StreamServer
set_snapshot_locked s payload = record s { snapshot = some payload }

unfoldable pub set_dirty : StreamServer → StreamServer
set_dirty s = record s { dirty = true }

unfoldable pub start : StreamServer → StreamServer
start s = if s.running then s else record s { running = true; stop_flag = false }

-- `stop`; `joined` is whether the owner thread ended within the bounded join. A thread that did
-- closes the socket, and one that did not keeps it.
unfoldable pub stop : StreamServer → Bool → StreamServer
stop s joined =
    if s.running
    then record s {
      stop_flag = true;
      running = false;
      socket_open = if joined then false else s.socket_open;
    }
    else record s { stop_flag = true; socket_open = false }

abbrev pub Sent : Type 0
Sent = List (Text × List ℕ)

-- `_send` of a snapshot, where there is one: what is handed to zmq. A ZMQError there is swallowed, and no
-- part of the state depends on it.
unfoldable pub send_to : Option (List ℕ) → Text → Sent
send_to none identity = []
send_to (some snapshot) identity = (identity, snapshot) ∷ []

-- One message of `_handle_announcements`, under the snapshot that was read before the loop.
unfoldable pub handle_announcement :
    Option (List ℕ) → ℕ → List (List ℕ) → StreamServer → Sent × StreamServer
handle_announcement snapshot now (identity ∷ word ∷ more) s =
    if text_beq word ready_frame
    then (send_to snapshot identity, record s { peers = insert identity now s.peers })
    else ([], s)
handle_announcement snapshot now _ s = ([], s)

-- The loop of `_prune_departed_peers` over a copy of the items.
unfoldable pub prune_items : ℕ → List (Text × ℕ) → List (Text × ℕ) → List (Text × ℕ)
prune_items now [] peers = peers
prune_items now ((identity, last_seen) ∷ items) peers =
    prune_items now items
      (if ltb (last_seen + peer_timeout) now then erase identity peers else peers)

unfoldable pub prune_departed_peers : ℕ → StreamServer → StreamServer
prune_departed_peers now s = record s { peers = prune_items now s.peers s.peers }

unfoldable pub broadcast_to : List ℕ → List (Text × ℕ) → Sent
broadcast_to snapshot [] = []
broadcast_to snapshot ((identity, seen) ∷ peers) =
    (identity, snapshot) ∷ broadcast_to snapshot peers

unfoldable pub broadcast : Option (List ℕ) → StreamServer → Sent
broadcast none s = []
broadcast (some snapshot) s = broadcast_to snapshot s.peers
