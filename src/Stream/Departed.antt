-- ===== src/Stream/Departed.antt =====
-- Pruning in every reachable state of a stream server.
use r2_labs.Base.{ℕ, ◌≡◌, List, [], ◌∷◌, Bool-cases, inl, inr, Option}
use r2_labs.Base.Text.{Text, text_eq, text_beq}
use r2_labs.Base.Dict.{lookup}
use r2_labs.Stream.Server.{
  StreamServer, init, set_snapshot_locked, set_dirty, handle_announcement, prune_departed_peers,
  ready_frame,
}
use r2_labs.Stream.Steps.{
  World, boot, Step, stores, flags, wakes, times_out, answers, drains, prunes, clears, skips,
  broadcasts, Reach, here, next,
}
use r2_labs.Stream.Pruning.{
  IsKeyed, keep_alive, lookup-prune_departed_peers, prune_items-IsKeyed, insert-IsKeyed,
}

announced-IsKeyed :
    (held : Option (List ℕ)) (now : ℕ) (frames : List (List ℕ)) (s : StreamServer)
    → IsKeyed s.peers
    → IsKeyed (handle_announcement held now frames s).1.peers
unfolding handle_announcement
announced-IsKeyed held now [] s k = k
announced-IsKeyed held now (identity ∷ []) s k = k
announced-IsKeyed held now (identity ∷ word ∷ more) s k =
    elim (Bool-cases (text_beq word ready_frame)) [
      | inl e ↦ rw e (insert-IsKeyed identity now s.peers k)
      | inr e ↦ rw e k
    ]

Step-IsKeyed : {w w' : World} → Step w w' → IsKeyed w.server.peers → IsKeyed w'.server.peers
unfolding set_snapshot_locked set_dirty prune_departed_peers
Step-IsKeyed {w} (stores payload e) k = rw e k
Step-IsKeyed {w} (flags n h e) k = rw e k
Step-IsKeyed {w} (wakes h e) k = rw e k
Step-IsKeyed {w} (times_out h e) k = rw e k
Step-IsKeyed {w} (answers held now frames h e) k =
    rw e (announced-IsKeyed held now frames w.server k)
Step-IsKeyed {w} (drains held h e) k = rw e k
Step-IsKeyed {w} (prunes now h e) k = rw e (prune_items-IsKeyed now w.server.peers w.server.peers k)
Step-IsKeyed {w} (clears h d e) k = rw e k
Step-IsKeyed {w} (skips h d e) k = rw e k
Step-IsKeyed {w} (broadcasts h e) k = rw e k

Reach-IsKeyed : {w : World} → Reach boot w → IsKeyed w.server.peers
unfolding boot init
Reach-IsKeyed here = tt
Reach-IsKeyed (next r st) = Step-IsKeyed st (Reach-IsKeyed r)

-- In every reachable state a pruning at time `now` forgets exactly the peers that last announced
-- themselves more than 5 s before, and leaves the times of the others as they were.
pub pruned_exactly :
    {w : World} (now : ℕ) (i : Text)
    → Reach boot w
    → lookup i (prune_departed_peers now w.server).peers ≡ keep_alive now (lookup i w.server.peers)
pruned_exactly {w} now i r = lookup-prune_departed_peers now w.server i (Reach-IsKeyed r)
