-- ===== src/Stream/Steps.antt =====
-- The interleavings of a stream server: threads in `set_snapshot`, and the owner thread between the
-- points at which it reads or writes what they share.
use r2_labs.Base.{ℕ, suc, ◌≡◌, true, false, List, [], ◌∷◌, Option}
use r2_labs.Base.Text.{Text, text_eq}
use r2_labs.Base.Dict.{insert}
use r2_labs.Stream.Server.{
  StreamServer, Sent, init, set_snapshot_locked, set_dirty, handle_announcement,
  prune_departed_peers, broadcast,
}

-- Where the owner thread stands in `_run`: at its poll, in the loop of `_handle_announcements` with
-- the snapshot that it read before the loop, before the pruning, before the test of `_dirty`, or
-- between the clearing of `_dirty` and the reading of the snapshot.
pub data Phase : Type 0 where
  polling pruning checking cleared : Phase
  draining : Option (List ℕ) → Phase

-- `setting` counts the threads between the two parts of `set_snapshot`; `seen` holds the last
-- payload that was sent to each identity.
pub record World : Type 0 where
  pub server : StreamServer
  pub setting : ℕ
  pub phase : Phase
  pub seen : List (Text × List ℕ)

unfoldable pub boot : World
unfolding init
boot = record { server = init; setting = 0; phase = polling; seen = [] }

unfoldable pub note : Sent → List (Text × List ℕ) → List (Text × List ℕ)
note [] seen = seen
note ((identity, payload) ∷ sent) seen = note sent (insert identity payload seen)

pub data Step (w w' : World) : Type 0 where
  stores :
      (payload : List ℕ)
      → w' ≡ record w { server = set_snapshot_locked w.server payload; setting = suc w.setting }
      → Step w w'
  flags :
      (n : ℕ)
      → w.setting ≡ suc n
      → w' ≡ record w { server = set_dirty w.server; setting = n }
      → Step w w'
  wakes : w.phase ≡ polling → w' ≡ record w { phase = draining w.server.snapshot } → Step w w'
  times_out : w.phase ≡ polling → w' ≡ record w { phase = pruning } → Step w w'
  answers :
      (held : Option (List ℕ)) (now : ℕ) (frames : List (List ℕ))
      → w.phase ≡ draining held
      → (let r = handle_announcement held now frames w.server in
          w' ≡ record w { server = r.1; seen = note r.0 w.seen })
      → Step w w'
  drains :
      (held : Option (List ℕ))
      → w.phase ≡ draining held
      → w' ≡ record w { phase = pruning }
      → Step w w'
  prunes :
      (now : ℕ)
      → w.phase ≡ pruning
      → w' ≡ record w { server = prune_departed_peers now w.server; phase = checking }
      → Step w w'
  clears :
      w.phase ≡ checking
      → w.server.dirty ≡ true
      → w' ≡ record w { server = record w.server { dirty = false }; phase = cleared }
      → Step w w'
  skips :
      w.phase ≡ checking → w.server.dirty ≡ false → w' ≡ record w { phase = polling } → Step w w'
  broadcasts :
      w.phase ≡ cleared
      → w' ≡ record w { phase = polling; seen = note (broadcast w.server.snapshot w.server) w.seen }
      → Step w w'

pub data Reach (s : World) : World → Type 0 where
  here : Reach s s
  next : {w w' : World} → Reach s w → Step w w' → Reach s w'
