-- ===== src/Studio/Export.antt =====
-- examples/scripts/training_ui/app.py: `export_model` and `export_progress_model`, which start an export
-- and poll for its end, once a second and sixty times at most.
use r2_labs.Base.{ℕ, zero, suc, Bool, true, false, List, [], ◌∷◌, Option, none, some}
use r2_labs.Base.Text.{Text}

-- An answer to a poll; `raised` is a call that raises, or a trainer that was dropped meanwhile. A
-- model is known by its number.
pub data ExportPoll : Type 0 where
  raised : ExportPoll
  status : Bool → Option Text → ℕ → ExportPoll

-- The answer to `start_export`, with its error.
pub data StartAnswer : Type 0 where
  start_raised : StartAnswer
  started : Option Text → StartAnswer

-- The endpoint's answer; `polling` is an endpoint that has no answer yet.
pub data Export : Type 0 where
  exported : ℕ → Export
  failed : Text → Export
  not_connected exception timed_out polling : Export

-- `if error:`
unfoldable pub or_error : Option Text → Export → Export
or_error none e = e
or_error (some []) e = e
or_error (some (x ∷ t)) e = failed (x ∷ t)

unfoldable pub poll : ℕ → List ExportPoll → Export
unfolding or_error
poll zero ps = timed_out
poll (suc n) [] = polling
poll (suc n) (raised ∷ ps) = exception
poll (suc n) (status false error model ∷ ps) = poll n ps
poll (suc n) (status true error model ∷ ps) = or_error error (exported model)

unfoldable pub after_start : StartAnswer → List ExportPoll → Export
unfolding poll or_error
after_start start_raised ps = exception
after_start (started error) ps = or_error error (poll 60 ps)

-- `trainer` is the endpoint's trainer, the skill's or the progress one's.
unfoldable pub export : Option ℕ → StartAnswer → List ExportPoll → Export
unfolding after_start
export none a ps = not_connected
export (some c) a ps = after_start a ps
