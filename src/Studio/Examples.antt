-- ===== src/Studio/Examples.antt =====
-- The page's endpoints at concrete inputs.
use mathlib.Core.Logic.{◌↔◌}
use r2_labs.Base.{ℕ, zero, suc, ◌≢◌, arith, false, true, List, ◌≡◌, refl, [], ◌∷◌, none, some}
use r2_labs.Base.Text.{codes}
use r2_labs.Studio.{
  connecting, resetting_skill, renewing, success, disconnected, not_connected, Studio, start,
  connect, connect_ends, disconnect, destroy_trainers, reset_progress, reset_skill, hard_reset,
  renewed, resume, connects, disconnects, resets, resumes, Reach, here, next,
}
use r2_labs.Studio.Export.{ExportPoll, status, started, polling, exported, export}
use r2_labs.Studio.Exported.{Exports, export-exported}
use r2_labs.Studio.Paired.{IsPaired, Reach-IsPaired}

-- A disconnection comes between the two resets of a hard reset, which ends well all the same: the page
-- has its trainers again, and no address.
abbrev without_address : Studio
without_address = record {
  trainer = some 2;
  progress_trainer = some 2;
  server_address = none;
  requests = [];
  replies = success (codes "a") ∷ disconnected ∷ success (codes "a") ∷ [];
}

without_address_reached : Reach without_address
unfolding start connect connect_ends disconnect destroy_trainers reset_progress reset_skill
    hard_reset renewed resume
without_address_reached =
    next
      (next
        (next
          (next
            (next (next here (connects (codes "a") refl))
              (resumes [] [] (connecting (codes "a")) (some 1) refl refl))
            (resets refl))
          (disconnects refl))
        (resumes [] [] (resetting_skill (codes "a")) none refl refl))
      (resumes [] [] (renewing (codes "a")) (some 2) refl refl)

Reach-IsPaired_example : IsPaired without_address
Reach-IsPaired_example = Reach-IsPaired without_address_reached

-- From there a hard reset is refused.
without_address_refused :
    (hard_reset without_address).replies
    ≡ success (codes "a") ∷ disconnected ∷ success (codes "a") ∷ not_connected ∷ []
unfolding hard_reset
without_address_refused = refl

-- A connection that fails drops the skill trainer only.
half_connected : (connect_ends (codes "b") none without_address).progress_trainer ≡ some 2
unfolding connect_ends
half_connected = refl

abbrev repeat_poll : ℕ → ExportPoll → List ExportPoll → List ExportPoll
repeat_poll zero p ps = ps
repeat_poll (suc n) p ps = p ∷ repeat_poll n p ps

-- The export is finished at the second poll.
abbrev answers : List ExportPoll
answers = status false none 0 ∷ repeat_poll 59 (status true none 8) []

export-exported_example :
    (export (some 1) (started none) answers ≢ polling)
    × ((export (some 1) (started none) answers ≡ exported 8) ↔ Exports (started none) answers 8)
export-exported_example = export-exported 1 (started none) answers 8 (omega arith)
