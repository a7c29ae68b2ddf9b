-- ===== src/Stream/Freshness.antt =====
-- Every known peer ends up with the current snapshot, in every interleaving.
use r2_labs.Base.{
  ℕ, ◌≡◌, ◌≢◌, sym, ◌∙◌, refl, Bool, true, false, ◌||◌, List, [], ◌∷◌, Option, none, some, arith,
  ltb, Bool-cases, inl, inr,
}
use r2_labs.Base.Text.{Text, text_eq, text_beq}
use r2_labs.Base.Dict.{lookup, insert, lookup-insert}
use r2_labs.Stream.Server.{
  init, set_snapshot_locked, set_dirty, handle_announcement, send_to, ready_frame,
  prune_departed_peers, broadcast, broadcast_to,
}
use r2_labs.Stream.Steps.{
  Phase, polling, draining, pruning, checking, cleared, World, boot, note, Step, stores, flags,
  wakes, times_out, answers, drains, prunes, clears, skips, broadcasts, Reach, here, next,
}
use r2_labs.Stream.Pruning.{known-prune_items}

abbrev is_cleared : Phase → Bool
is_cleared cleared = true
is_cleared polling = false
is_cleared pruning = false
is_cleared checking = false
is_cleared (draining held) = false

-- A change of the state is on its way to the peers.
abbrev pub is_pending : World → Bool
is_pending w = w.server.dirty || ltb 0 w.setting || is_cleared w.phase

pub record IsCurrent (w : World) : Type 0 where
  pub unset : w.server.snapshot ≡ none → w.seen ≡ []
  pub held_set : (payload : List ℕ) → w.phase ≡ draining (some payload) → w.server.snapshot ≢ none
  pub held :
      (h : Option (List ℕ)) → w.phase ≡ draining h → is_pending w ≡ false → h ≡ w.server.snapshot
  pub reached :
      (i : Text) (t : ℕ)
      → lookup i w.server.peers ≡ some t
      → is_pending w ≡ false
      → lookup i w.seen ≡ w.server.snapshot

boot-IsCurrent : IsCurrent boot
unfolding boot init lookup
boot-IsCurrent = record {
  unset = λ e. refl;
  held_set = λ h q n. cc;
  held = λ h e p. cc;
  reached = λ i t e p. cc;
}

lookup-note :
    (snapshot : List ℕ) (peers : List (Text × ℕ)) (seen : List (Text × List ℕ)) (i : Text)
    → lookup i seen ≡ some snapshot
    → lookup i (note (broadcast_to snapshot peers) seen) ≡ some snapshot
unfolding note broadcast_to
lookup-note snapshot [] seen i h = h
lookup-note snapshot ((j, t) ∷ peers) seen i h =
    lookup-note snapshot peers (insert j snapshot seen) i
      (ground (arith, lookup-insert j i snapshot seen))

note-broadcast_to :
    (snapshot : List ℕ) (peers : List (Text × ℕ)) (seen : List (Text × List ℕ)) (i : Text) (t : ℕ)
    → lookup i peers ≡ some t
    → lookup i (note (broadcast_to snapshot peers) seen) ≡ some snapshot
unfolding note broadcast_to lookup
note-broadcast_to snapshot [] seen i t h = cc
note-broadcast_to snapshot ((j, u) ∷ peers) seen i t h = elim (Bool-cases (text_beq j i)) [
  | inl e ↦
      lookup-note snapshot peers (insert j snapshot seen) i (lookup-insert j i snapshot seen ∙ rw e)
  | inr e ↦ note-broadcast_to snapshot peers (insert j snapshot seen) i t (rw e at h)
]

lookup-empty : (i : Text) → lookup {V = List ℕ} i [] ≡ none
unfolding lookup
lookup-empty i = refl

broadcast-unset :
    (o : Option (List ℕ)) (w : World)
    → (o ≡ none → w.seen ≡ [])
    → o ≡ none
    → note (broadcast o w.server) w.seen ≡ []
unfolding broadcast note
broadcast-unset none w u e = u e
broadcast-unset (some s) w u e = cc

broadcast-reached :
    (o : Option (List ℕ)) (w : World) (i : Text) (t : ℕ)
    → (o ≡ none → w.seen ≡ [])
    → lookup i w.server.peers ≡ some t
    → lookup i (note (broadcast o w.server) w.seen) ≡ o
unfolding broadcast note
broadcast-reached none w i t u k = rw (u refl) (lookup-empty i)
broadcast-reached (some s) w i t u k = note-broadcast_to s w.server.peers w.seen i t k

answer-IsCurrent :
    (w : World) (held : Option (List ℕ)) (now : ℕ) (identity : Text)
    → w.phase ≡ draining held
    → IsCurrent w
    → IsCurrent (record w {
      server = record w.server { peers = insert identity now w.server.peers };
      seen = note (send_to held identity) w.seen;
    })
unfolding send_to note
answer-IsCurrent w none now identity h v = record {
  unset = v.unset;
  held_set = v.held_set;
  held = λ g q p. v.held g q p;
  reached = λ i t q p. let n = v.held none h p in rw (v.unset (sym n)) (lookup-empty i ∙ n);
}
answer-IsCurrent w (some s) now identity h v = record {
  unset = λ q. absurd (v.held_set s h q);
  held_set = v.held_set;
  held = λ g q p. v.held g q p;
  reached = λ i t q p. ground (
    arith,
    lookup-insert identity i s w.seen,
    lookup-insert identity i now w.server.peers,
    v.reached i t,
    v.held (some s) h,
  );
}

answers-IsCurrent :
    (w : World) (held : Option (List ℕ)) (now : ℕ) (frames : List (List ℕ))
    → w.phase ≡ draining held
    → IsCurrent w
    → (let r = handle_announcement held now frames w.server in
        IsCurrent (record w { server = r.1; seen = note r.0 w.seen }))
unfolding handle_announcement note
answers-IsCurrent w held now [] h v = v
answers-IsCurrent w held now (identity ∷ []) h v = v
answers-IsCurrent w held now (identity ∷ word ∷ more) h v =
    elim (Bool-cases (text_beq word ready_frame)) [
      | inl e ↦ rw e (answer-IsCurrent w held now identity h v)
      | inr e ↦ rw e v
    ]

Step-IsCurrent : {w w' : World} → Step w w' → IsCurrent w → IsCurrent w'
unfolding set_snapshot_locked set_dirty prune_departed_peers broadcast note
Step-IsCurrent {w} (stores payload e) v = rw e (record {
  unset = λ q. cc;
  held_set = λ h q n. cc;
  held = λ h q p. ground arith;
  reached = λ i t q p. ground arith;
})
Step-IsCurrent {w} (flags n k e) v = rw e (record {
  unset = v.unset;
  held_set = v.held_set;
  held = λ h q p. ground arith;
  reached = λ i t q p. ground arith;
})
Step-IsCurrent {w} (wakes k e) v = rw e (record {
  unset = v.unset;
  held_set = λ h q n. cc;
  held = λ h q p. ground arith;
  reached = λ i t q p. ground (arith, v.reached i t);
})
Step-IsCurrent {w} (times_out k e) v = rw e (record {
  unset = v.unset;
  held_set = λ h q n. cc;
  held = λ h q p. cc;
  reached = λ i t q p. ground (arith, v.reached i t);
})
Step-IsCurrent {w} (answers held now frames k e) v = rw e (answers-IsCurrent w held now frames k v)
Step-IsCurrent {w} (drains held k e) v = rw e (record {
  unset = v.unset;
  held_set = λ h q n. cc;
  held = λ h q p. cc;
  reached = λ i t q p. ground (arith, v.reached i t);
})
Step-IsCurrent {w} (prunes now k e) v = rw e (record {
  unset = v.unset;
  held_set = λ h q n. cc;
  held = λ h q p. cc;
  reached = λ i t q p.
      ground (arith, v.reached i t, known-prune_items now i w.server.peers w.server.peers t);
})
Step-IsCurrent {w} (clears k d e) v = rw e (record {
  unset = v.unset;
  held_set = λ h q n. cc;
  held = λ h q p. cc;
  reached = λ i t q p. ground arith;
})
Step-IsCurrent {w} (skips k d e) v = rw e (record {
  unset = v.unset;
  held_set = λ h q n. cc;
  held = λ h q p. cc;
  reached = λ i t q p. ground (arith, v.reached i t);
})
Step-IsCurrent {w} (broadcasts k e) v = rw e (record {
  unset = broadcast-unset w.server.snapshot w v.unset;
  held_set = λ h q n. cc;
  held = λ h q p. cc;
  reached = λ i t q p. broadcast-reached w.server.snapshot w i t v.unset q;
})

all-IsCurrent : {w : World} → Reach boot w → IsCurrent w
all-IsCurrent here = boot-IsCurrent
all-IsCurrent (next r st) = Step-IsCurrent st (all-IsCurrent r)

-- In every interleaving of threads that set snapshots with the owner thread, once no change is on
-- its way (no flag is set, no thread is between storing its snapshot and raising the flag, and the
-- owner thread is not between clearing the flag and reading the snapshot), the last payload that
-- was sent to a known peer is the current snapshot; if there is none yet, nothing was sent.
pub Reach-IsCurrent :
    {w : World} (i : Text) (t : ℕ)
    → Reach boot w
    → lookup i w.server.peers ≡ some t
    → is_pending w ≡ false
    → lookup i w.seen ≡ w.server.snapshot
Reach-IsCurrent {w} i t r k p = (all-IsCurrent r).reached i t k p
