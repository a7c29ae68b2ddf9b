-- ===== src/Collect/Alternation.antt =====
-- Two prefixes take turns, and every saved or discarded episode is counted.
use r2_labs.Base.{
  ℕ, suc, ◌+◌, ◌≡◌, ap, subst, sym, ◌∙◌, ◌⊎◌, inl, inr, Bool, true, false, List, [], ◌∷◌, ◌++◌,
  if◌then◌else◌, arith, length, Bool-cases,
}
use mathlib.Core.List.{append_assoc, append-nil}
use r2_labs.Base.Text.{Text}
use r2_labs.Collect.Episodes.{
  EpisodeController, is_alternating, prefix_at, current, advance_prefix, save_as, save_current,
  save, discard_prefix, discard_current, discard,
}

-- An episode that is saved or discarded, and whether the episode client raises.
pub record Decision : Type 0 where
  pub keep : Bool
  pub raises : Bool

abbrev pub decide : Decision → EpisodeController → EpisodeController
decide d c = if d.keep then (save d.raises c).0 else (discard d.raises c).0

abbrev pub decide_all : List Decision → EpisodeController → EpisodeController
decide_all [] c = c
decide_all (d ∷ ds) c = decide_all ds (decide d c)

-- The two prefixes, `this` the one whose turn it is.
abbrev pub IsTurn : Text → Text → EpisodeController → Type 0
IsTurn this next c =
    ((c.prefixes ≡ this ∷ next ∷ []) × (c.prefix_index ≡ 0))
    ⊎ ((c.prefixes ≡ next ∷ this ∷ []) × (c.prefix_index ≡ 1))

abbrev pub name_of : Decision → Text → Text
name_of d p = if d.keep then p else discard_prefix p

abbrev pub names : Text → Text → List Decision → List Text
names this next [] = []
names this next (d ∷ ds) =
    if d.raises then names this next ds else name_of d this ∷ names next this ds

abbrev pub total : EpisodeController → ℕ
total c = c.saved_count + c.discarded_count

-- What a controller has saved more than before, under the names of a list.
abbrev pub Adds : List Text → EpisodeController → EpisodeController → Type 0
Adds new c c' = (c'.saves ≡ c.saves ++ new) × (total c' ≡ total c + length new)

decide-raises :
    (this next : Text) (d : Decision) (c : EpisodeController)
    → IsTurn this next c
    → d.raises ≡ true
    → decide d c ≡ c
unfolding save discard save_current discard_current save_as current prefix_at
decide-raises this next d c (inl (p, i)) h = ground (arith, p, i, h)
decide-raises this next d c (inr (p, i)) h = ground (arith, p, i, h)

decide-saves :
    (this next : Text) (d : Decision) (c : EpisodeController)
    → IsTurn this next c
    → d.raises ≡ false
    → ((decide d c).saves ≡ c.saves ++ name_of d this ∷ [])
      × (total (decide d c) ≡ suc (total c))
      × IsTurn next this (decide d c)
unfolding save discard save_current discard_current save_as current prefix_at advance_prefix
    is_alternating
decide-saves this next d c (inl (p, i)) h = ground (arith, p, i, h)
decide-saves this next d c (inr (p, i)) h = ground (arith, p, i, h)

names-raises :
    (this next : Text) (d : Decision) (ds : List Decision)
    → d.raises ≡ true
    → names this next (d ∷ ds) ≡ names this next ds
names-raises this next d ds e =
    ap (λ b. if b then names this next ds else name_of d this ∷ names next this ds) e

names-saves :
    (this next : Text) (d : Decision) (ds : List Decision)
    → d.raises ≡ false
    → names this next (d ∷ ds) ≡ name_of d this ∷ names next this ds
names-saves this next d ds e =
    ap (λ b. if b then names this next ds else name_of d this ∷ names next this ds) e

-- Over any decisions on a controller with two prefixes, those whose save raises aside, the episodes
-- are saved under the prefixes in turn, beginning with the one whose turn it is, a discarded one's
-- after "discarded_"; the counts of saved and of discarded episodes grow together by their number;
-- and a decision whose save raises changes nothing.
pub decide_all-names :
    (this next : Text) (ds : List Decision) (c : EpisodeController)
    → IsTurn this next c
    → Adds (names this next ds) c (decide_all ds c)
decide_all-names this next [] c h = (sym (append-nil c.saves), omega arith)
decide_all-names this next (d ∷ ds) c h = elim (Bool-cases d.raises) [
  | inl e ↦
      subst (λ x. Adds x c (decide_all ds (decide d c))) (sym (names-raises this next d ds e))
        (subst (λ x. Adds (names this next ds) c (decide_all ds x))
          (sym (decide-raises this next d c h e)) (decide_all-names this next ds c h))
  | inr e ↦
      let (saved, counted, turned) = decide-saves this next d c h e in
      let (rest, sum) = decide_all-names next this ds (decide d c) turned in
      let new = name_of d this ∷ names next this ds in
      subst (λ x. Adds x c (decide_all ds (decide d c))) (sym (names-saves this next d ds e))
        (
          rest
              ∙ ap (λ x. x ++ names next this ds) saved
              ∙ append_assoc c.saves (name_of d this ∷ []) (names next this ds),
          omega (arith, sum, counted),
        )
]
