-- ===== src/Stream/Pruning.antt =====
-- Which peers `_prune_departed_peers` forgets.
use r2_labs.Base.{
  ℕ, ◌+◌, ◌≡◌, ◌∙◌, refl, Bool, true, false, ◌&&◌, ◌||◌, List, [], ◌∷◌, Option, none, some, arith,
  if◌then◌else◌, ltb, All, Bool-cases, inl, inr,
}
use r2_labs.Base.Text.{Text, text_eq, text_beq, text_beq_iff}
use r2_labs.Base.Dict.{lookup, erase, insert, lookup-erase}
use r2_labs.Stream.Server.{StreamServer, peer_timeout, prune_items, prune_departed_peers}

abbrev pub Peers : Type 0
Peers = List (Text × ℕ)

-- No identity has two entries.
abbrev pub IsKeyed : Peers → Type 0
IsKeyed [] = Unit
IsKeyed ((i, t) ∷ d) = All (λ e. text_beq i e.0 ≡ false) d × IsKeyed d

abbrev pub is_departed : ℕ → ℕ → Bool
is_departed now last_seen = ltb (last_seen + peer_timeout) now

departed_in : ℕ → Text → Peers → Bool
departed_in now i [] = false
departed_in now i ((j, t) ∷ items) = text_beq j i && is_departed now t || departed_in now i items

lookup-prune_items :
    (now : ℕ) (i : Text) (items peers : Peers)
    → lookup i (prune_items now items peers)
      ≡ (if departed_in now i items then none else lookup i peers)
unfolding prune_items departed_in
lookup-prune_items now i [] peers = refl
lookup-prune_items now i ((j, t) ∷ items) peers = ground (
  arith,
  lookup-prune_items now i items (if ltb (t + peer_timeout) now then erase j peers else peers),
  lookup-erase j i peers,
)

not_departed_in :
    (now : ℕ) (i j : Text) (items : Peers)
    → All (λ e. text_beq j e.0 ≡ false) items
    → text_beq j i ≡ true
    → departed_in now i items ≡ false
unfolding departed_in
not_departed_in now i j [] a h = refl
not_departed_in now i j ((k, t) ∷ items) a h =
    ground (
      arith,
      text_beq_iff j i,
      text_beq_iff j k,
      text_beq_iff k i,
      not_departed_in now i j items a.1,
    )

abbrev pub keep_alive : ℕ → Option ℕ → Option ℕ
keep_alive now none = none
keep_alive now (some t) = if is_departed now t then none else some t

departed_in-lookup :
    (now : ℕ) (i : Text) (d : Peers)
    → IsKeyed d
    → (if departed_in now i d then none else lookup i d) ≡ keep_alive now (lookup i d)
unfolding departed_in lookup
departed_in-lookup now i [] k = refl
departed_in-lookup now i ((j, t) ∷ d) k =
    ground (arith, not_departed_in now i j d k.0, departed_in-lookup now i d k.1)

-- After the pruning at time `now`, a peer is known exactly if it was known and announced itself at
-- most 5 s ago, and its time is unchanged; the others are forgotten.
pub lookup-prune_departed_peers :
    (now : ℕ) (s : StreamServer) (i : Text)
    → IsKeyed s.peers
    → lookup i (prune_departed_peers now s).peers ≡ keep_alive now (lookup i s.peers)
unfolding prune_departed_peers
lookup-prune_departed_peers now s i k =
    lookup-prune_items now i s.peers s.peers ∙ departed_in-lookup now i s.peers k

-- A peer that is still known after a pruning was known before it.
pub known-prune_items :
    (now : ℕ) (i : Text) (items peers : Peers) (t : ℕ)
    → lookup i (prune_items now items peers) ≡ some t
    → lookup i peers ≡ some t
known-prune_items now i items peers t h = ground (arith, lookup-prune_items now i items peers)

All-insert :
    (i j : Text) (t : ℕ) (d : Peers)
    → text_beq i j ≡ false
    → All (λ e. text_beq i e.0 ≡ false) d
    → All (λ e. text_beq i e.0 ≡ false) (insert j t d)
unfolding insert
All-insert i j t [] n a = (n, tt)
All-insert i j t ((k, u) ∷ d) n a = elim (Bool-cases (text_beq k j)) [
  | inl e ↦ rw e (a.0, a.1)
  | inr e ↦ rw e (a.0, All-insert i j t d n a.1)
]

pub insert-IsKeyed : (j : Text) (t : ℕ) (d : Peers) → IsKeyed d → IsKeyed (insert j t d)
unfolding insert
insert-IsKeyed j t [] k = (tt, tt)
insert-IsKeyed j t ((i, u) ∷ d) k = elim (Bool-cases (text_beq i j)) [
  | inl e ↦ rw e (k.0, k.1)
  | inr e ↦ rw e (All-insert i j t d e k.0, insert-IsKeyed j t d k.1)
]

All-erase :
    (i j : Text) (d : Peers)
    → All (λ e. text_beq i e.0 ≡ false) d
    → All (λ e. text_beq i e.0 ≡ false) (erase j d)
unfolding erase
All-erase i j [] a = tt
All-erase i j ((k, u) ∷ d) a = elim (Bool-cases (text_beq k j)) [
  | inl e ↦ rw e (All-erase i j d a.1)
  | inr e ↦ rw e (a.0, All-erase i j d a.1)
]

erase-IsKeyed : (j : Text) (d : Peers) → IsKeyed d → IsKeyed (erase j d)
unfolding erase
erase-IsKeyed j [] k = tt
erase-IsKeyed j ((i, u) ∷ d) k = elim (Bool-cases (text_beq i j)) [
  | inl e ↦ rw e (erase-IsKeyed j d k.1)
  | inr e ↦ rw e (All-erase i j d k.0, erase-IsKeyed j d k.1)
]

pub prune_items-IsKeyed :
    (now : ℕ) (items peers : Peers) → IsKeyed peers → IsKeyed (prune_items now items peers)
unfolding prune_items
prune_items-IsKeyed now [] peers k = k
prune_items-IsKeyed now ((j, t) ∷ items) peers k = elim (Bool-cases (is_departed now t)) [
  | inl e ↦ rw e (prune_items-IsKeyed now items (erase j peers) (erase-IsKeyed j peers k))
  | inr e ↦ rw e (prune_items-IsKeyed now items peers k)
]
