-- ===== src/Studio/Paired.antt =====
-- The two trainers of the page are those of one connection.
use r2_labs.Base.{ℕ, ◌≡◌, refl, Option, none, some, arith, inl, inr}
use mathlib.Core.Logic.{◌⊎◌}
use r2_labs.Base.Text.{Text}
use r2_labs.Studio.{
  Waiting, connecting, resetting_skill, resetting_progress, renewing, Studio, start, connect,
  connect_ends, disconnect, destroy_trainers, reset_progress, reset_skill, hard_reset, renewed,
  resume, Step, connects, disconnects, resets, resumes, Reach, here, next,
}

-- There is no skill trainer, or the progress trainer is of the same client.
abbrev pub IsPaired : Studio → Type 0
IsPaired s = (s.trainer ≡ none) ⊎ (s.progress_trainer ≡ s.trainer)

reset_progress-IsPaired : (addr : Text) (s : Studio) → IsPaired s → IsPaired (reset_progress addr s)
unfolding reset_progress destroy_trainers
reset_progress-IsPaired addr s h = ground (arith, h)

hard_reset-IsPaired : (s : Studio) → IsPaired s → IsPaired (hard_reset s)
unfolding hard_reset reset_skill reset_progress destroy_trainers
hard_reset-IsPaired s h = ground (arith, h)

resume-IsPaired : (w : Waiting) (o : Option ℕ) (s : Studio) → IsPaired s → IsPaired (resume w o s)
unfolding resume connect_ends destroy_trainers renewed
resume-IsPaired (connecting addr) none s h = inl refl
resume-IsPaired (connecting addr) (some c) s h = inr refl
resume-IsPaired (resetting_skill addr) o s h = reset_progress-IsPaired addr s h
resume-IsPaired (resetting_progress addr) o s h = inl refl
resume-IsPaired (renewing addr) none s h = inl refl
resume-IsPaired (renewing addr) (some c) s h = inr refl

Step-IsPaired : {s s' : Studio} → IsPaired s → Step s s' → IsPaired s'
unfolding connect disconnect
Step-IsPaired h (connects addr e) = rw e h
Step-IsPaired h (disconnects e) = rw e (inl refl)
Step-IsPaired {s} h (resets e) = rw e (hard_reset-IsPaired s h)
Step-IsPaired {s} h (resumes before after w o q e) = rw e (resume-IsPaired w o _ h)

-- In every interleaving of requests that connect, disconnect and reset, whichever of them fail, the
-- page has no skill trainer without a progress trainer, and the two share one client.
pub Reach-IsPaired : {s : Studio} → Reach s → IsPaired s
unfolding start
Reach-IsPaired here = inl refl
Reach-IsPaired (next r t) = Step-IsPaired (Reach-IsPaired r) t
