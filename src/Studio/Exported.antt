-- ===== src/Studio/Exported.antt =====
-- An export request ends within sixty polls, and answers with a model exactly where the server has one.
use mathlib.Core.Logic.{◌↔◌}
use r2_labs.Base.{
  ℕ, zero, suc, ◌≡◌, ◌≢◌, ◌<◌, ◌≤◌, refl, ap, true, false, List, [], ◌∷◌, ◌++◌, Option, none, some,
  arith, All, length,
}
use r2_labs.Base.Text.{Text}
use r2_labs.Studio.Export.{
  ExportPoll, raised, status, StartAnswer, start_raised, started, Export, exported, polling,
  or_error, poll, after_start, export,
}

abbrev pub IsUnfinished : ExportPoll → Type 0
IsUnfinished p = (e : Option Text) × (m : ℕ) × (p ≡ status false e m)

-- No error, or an empty one.
abbrev pub IsBlank : Option Text → Type 0
IsBlank none = Unit
IsBlank (some []) = Unit
IsBlank (some (x ∷ t)) = ⊥

-- The first finished one of the polls is among the first n, after unfinished ones only, and gives the
-- model without an error.
abbrev pub Finds : ℕ → List ExportPoll → ℕ → Type 0
Finds n ps m =
    (before after : List ExportPoll) × (e : Option Text) × (ps ≡ before ++ status true e m ∷ after)
    × All IsUnfinished before
    × (length before < n)
    × IsBlank e

or_error-exported :
    (e : Option Text) (x : Export) (m : ℕ)
    → or_error e x ≡ exported m
    → IsBlank e × (x ≡ exported m)
unfolding or_error
or_error-exported none x m h = (tt, h)
or_error-exported (some []) x m h = (tt, h)
or_error-exported (some (y ∷ t)) x m h = cc

or_error-IsBlank : (e : Option Text) (x : Export) → IsBlank e → or_error e x ≡ x
unfolding or_error
or_error-IsBlank none x h = refl
or_error-IsBlank (some []) x h = refl
or_error-IsBlank (some (y ∷ t)) x h = elim h [ ]

exported-injective : (m n : ℕ) → exported m ≡ exported n → m ≡ n
exported-injective m n h = cc

poll-Finds : (n : ℕ) (ps : List ExportPoll) (m : ℕ) → poll n ps ≡ exported m → Finds n ps m
unfolding poll
poll-Finds zero ps m h = cc
poll-Finds (suc n) [] m h = cc
poll-Finds (suc n) (raised ∷ ps) m h = cc
poll-Finds (suc n) (status false e k ∷ ps) m h =
    let (before, after, d, q, u, l, b) = poll-Finds n ps m h in
    (
      status false e k ∷ before,
      after,
      d,
      ap (◌∷◌ (status false e k)) q,
      ((e, k, refl), u),
      omega (arith, l),
      b,
    )
poll-Finds (suc n) (status true e k ∷ ps) m h =
    let (b, q) = or_error-exported e (exported k) m h in
    ([], ps, e, ap (λ j. status true e j ∷ ps) (exported-injective k m q), tt, omega arith, b)

Finds-poll :
    (n : ℕ) (before after : List ExportPoll) (e : Option Text) (m : ℕ)
    → All IsUnfinished before
    → length before < n
    → IsBlank e
    → poll n (before ++ status true e m ∷ after) ≡ exported m
unfolding poll
Finds-poll zero before after e m u l b = ground (arith, l)
Finds-poll (suc n) [] after e m u l b = or_error-IsBlank e (exported m) b
Finds-poll (suc n) (p ∷ before) after e m ((d, k, q), u) l b =
    rw q (Finds-poll n before after e m u (omega (arith, l)) b)

poll-ends : (n : ℕ) (ps : List ExportPoll) → n ≤ length ps → poll n ps ≢ polling
unfolding poll or_error
poll-ends zero ps l h = cc
poll-ends (suc n) [] l h = omega (arith, l)
poll-ends (suc n) (raised ∷ ps) l h = cc
poll-ends (suc n) (status false e k ∷ ps) l h = poll-ends n ps (omega (arith, l)) h
poll-ends (suc n) (status true none k ∷ ps) l h = cc
poll-ends (suc n) (status true (some []) k ∷ ps) l h = cc
poll-ends (suc n) (status true (some (x ∷ t)) k ∷ ps) l h = cc

or_error-ends : (e : Option Text) (x : Export) → x ≢ polling → or_error e x ≢ polling
unfolding or_error
or_error-ends none x h = h
or_error-ends (some []) x h = h
or_error-ends (some (y ∷ t)) x h = λ q. cc

export-ends :
    (c : ℕ) (a : StartAnswer) (ps : List ExportPoll)
    → 60 ≤ length ps
    → export (some c) a ps ≢ polling
unfolding export after_start
export-ends c start_raised ps l h = cc
export-ends c (started e) ps l h = or_error-ends e (poll 60 ps) (poll-ends 60 ps l) h

-- What it takes for a model to be exported.
abbrev pub Exports : StartAnswer → List ExportPoll → ℕ → Type 0
Exports a ps m = (e : Option Text) × (a ≡ started e) × IsBlank e × Finds 60 ps m

export-Exports :
    (c : ℕ) (a : StartAnswer) (ps : List ExportPoll) (m : ℕ)
    → export (some c) a ps ≡ exported m
    → Exports a ps m
unfolding export after_start
export-Exports c start_raised ps m h = cc
export-Exports c (started e) ps m h =
    let (b, q) = or_error-exported e (poll 60 ps) m h in (e, refl, b, poll-Finds 60 ps m q)

Exports-export :
    (c : ℕ) (a : StartAnswer) (ps : List ExportPoll) (m : ℕ)
    → Exports a ps m
    → export (some c) a ps ≡ exported m
unfolding export after_start
Exports-export c a ps m (e, q, b, (before, after, d, s, u, l, k)) =
    rw (q, s, or_error-IsBlank e _ b) (Finds-poll 60 before after d m u l k)

-- If the server has answered sixty polls of a connected page, its export request has an answer; and
-- this is a model exactly if the start has no error and the first finished one of the sixty, with
-- no call before it that raised, gives that model without an error.
pub export-exported :
    (c : ℕ) (a : StartAnswer) (ps : List ExportPoll) (m : ℕ)
    → 60 ≤ length ps
    → (export (some c) a ps ≢ polling) × ((export (some c) a ps ≡ exported m) ↔ Exports a ps m)
export-exported c a ps m l =
    (export-ends c a ps l, (export-Exports c a ps m, Exports-export c a ps m))
