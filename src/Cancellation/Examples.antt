-- ===== src/Cancellation/Examples.antt =====
-- Sweeps over a small registry.
use r2_labs.Base.{ℕ, ◌≡◌, refl, Bool, true, false, List, [], ◌∷◌, none}
use r2_labs.Base.Dict.{nat_eq}
use r2_labs.Cancellation.{Registry, cancel_all_inflight, Handlers, install_handlers, default}
use r2_labs.Cancellation.Laws.{cancel_all_inflight_swallows, install_handlers_idem}

abbrev two : Registry ℕ
two = (10, 1) ∷ (11, 2) ∷ []

abbrev record_call : Bool → ℕ → List ℕ → List ℕ × Bool
record_call raised c called = (c ∷ called, raised)

cancel_all_inflight_swallows_example :
    cancel_all_inflight (record_call true) two [] ≡ cancel_all_inflight (record_call false) two []
cancel_all_inflight_swallows_example =
    cancel_all_inflight_swallows (record_call true) (record_call false) two [] (λ c s. refl)

abbrev untouched : Handlers
untouched = record {
  installed = false;
  previous = none;
  atexit_registered = false;
  current = default;
  ours = false;
  sweeps_at_exit = 0;
}

install_handlers_idem_example :
    install_handlers false (install_handlers true untouched) ≡ install_handlers true untouched
install_handlers_idem_example = install_handlers_idem false untouched
