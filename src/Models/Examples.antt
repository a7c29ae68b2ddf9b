-- ===== src/Models/Examples.antt =====
-- A wait for two models.
use r2_labs.Base.{ℕ, ◌≡◌, refl, List, [], ◌∷◌, none, some, if◌then◌else◌}
use r2_labs.Base.Text.{Text, text_eq, text_beq, codes}
use r2_labs.Base.Dict.{lookup}
use r2_labs.Models.{
  ModelState, ModelStatus, done, runtime_error, Poll, wait, round_of, round_ends, get_status,
  status_or_error, still_loading, requested_in, contains, is_state, missing, checked, preload,
}
use r2_labs.Models.Loading.{Returned, wait-Returned}

abbrev status_of : ModelState → ModelStatus
status_of state = record { state = state; error = none }

abbrev poll_at : ℕ → ModelState → Poll
poll_at now second = record {
  reply = some (record {
    models = some ((codes "a", status_of ModelState.loaded) ∷ (codes "b", status_of second) ∷ []);
    error = [];
  });
  now = now;
}

abbrev wanted : List Text
wanted = codes "b" ∷ codes "a" ∷ []

abbrev polls : List Poll
polls = poll_at 0 ModelState.loading ∷ poll_at 100 ModelState.loaded ∷ []

wait_done : wait wanted 1000 polls ≡ done
unfolding wait round_of round_ends get_status status_or_error still_loading requested_in contains
    is_state missing checked text_beq lookup
wait_done = refl

wait-Returned_example : Returned wanted polls
wait-Returned_example = wait-Returned wanted 1000 polls wait_done

preload_stops :
    preload
      (λ id. some (if text_beq id (codes "b") then codes "no b" else []))
      (codes "a" ∷ codes "b" ∷ codes "c" ∷ [])
    ≡ (codes "a" ∷ codes "b" ∷ [], runtime_error (codes "no b"))
unfolding preload text_beq
preload_stops = refl
