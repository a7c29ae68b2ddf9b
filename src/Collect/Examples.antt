-- ===== src/Collect/Examples.antt =====
-- A pedal, a controller and an alert at concrete inputs.
use r2_labs.Base.{
  All, inr, ℕ, zero, suc, ◌≡◌, ◌<◌, ◌⊎◌, inl, refl, true, false, List, [], ◌∷◌, none, some, arith,
}
use r2_labs.Base.Text.{codes}
use r2_labs.Collect.Pedal.{
  Ecodes, InputEvent, Input, event, lost, from_evdev_event, event_of, from_evdev_code,
  from_evdev_value, is_pedal_event, event_loop, Event, Button, ButtonState, opened, not_found,
  Raised, Attempt, init as new_listener, start, stop, delay, start_thread, open_device,
}
use r2_labs.Collect.Reconnects.{IsFailure, IsFirst, starts, start_stuck}
use r2_labs.Collect.Clicks.{GoesOn, key_events, Reports, event_loop-Reports}
use r2_labs.Collect.Episodes.{
  EpisodeController, new_coordinator, init as new_controller, discard_prefix,
}
use r2_labs.Collect.Alternation.{Decision, IsTurn, names, Adds, decide_all, decide_all-names}
use r2_labs.Collect.Presses.{Reads, SameEpisodes, Decides, on_pedal_event, on_pedal_event-Decides}
use r2_labs.Collect.Alerts.{no_alert, hidden, get_hardware_alert}
use r2_labs.Collect.Recovery.{healthy_polls, all_recovered, recovery_shows}

delays : (delay 0 ≡ 500) × (delay 2 ≡ 2000) × (delay 3 ≡ 3000) × (delay 29 ≡ 3000)
unfolding delay
delays = (refl, refl, refl, refl)

abbrev second_opens : ℕ → Attempt
second_opens zero = record { stopped_before = false; stopped_after = false; opening = not_found }
second_opens (suc n) = record { stopped_before = false; stopped_after = false; opening = opened 7 }

second_opens-IsFirst : IsFirst second_opens 1 7
second_opens-IsFirst = record {
  before = before_second;
  runs_before = refl;
  runs_after = refl;
  opens = refl;
}
  where
    before_second : (i : ℕ) → i < 1 → IsFailure (second_opens i)
    before_second zero h = (refl, refl, inl refl)
    before_second (suc i) h = absurd (omega (arith, h))

abbrev ecodes : Ecodes
ecodes = record { key_a = 30; key_b = 48; key_c = 46; ev_key = 1 }

abbrev key_b : ℕ → InputEvent
key_b value = record { type = 1; code = 48; value = value }

-- A press whose handler raises, a loss, and the release.
abbrev inputs : List Input
inputs = event false true (key_b 1) ∷ lost false second_opens ∷ event false false (key_b 0) ∷ []

inputs-GoesOn : All (GoesOn ecodes) inputs
unfolding from_evdev_event event_of from_evdev_code from_evdev_value
inputs-GoesOn = (
  (refl, inr (record { button = Button.b; state = ButtonState.pressed }, refl)),
  (
    (refl, (1, 7, omega arith, second_opens-IsFirst)),
    ((refl, inr (record { button = Button.b; state = ButtonState.released }, refl)), tt),
  ),
)

event_loop-Reports_example : Reports ecodes inputs (event_loop ecodes inputs new_listener)
event_loop-Reports_example = event_loop-Reports ecodes inputs new_listener inputs-GoesOn

reported :
    key_events ecodes inputs
    ≡ record { button = Button.b; state = ButtonState.pressed }
      ∷ record { button = Button.b; state = ButtonState.released }
      ∷ []
unfolding from_evdev_event event_of from_evdev_code from_evdev_value is_pedal_event
reported = refl

start_stuck_example :
    let s = starts (opened 7 ∷ not_found ∷ []) (start not_found new_listener).0 in
    (start (opened 7) s ≡ (s, none))
    × (s.thread ≡ false)
    × (s.device ≡ none)
    × (start (opened 7) (stop s) ≡ start (opened 7) new_listener)
unfolding new_listener start start_thread open_device
start_stuck_example =
    start_stuck not_found (opened 7) (opened 7 ∷ not_found ∷ []) new_listener Raised.value_error
      refl refl refl refl

abbrev two_prefixes : EpisodeController
two_prefixes = new_controller new_coordinator (codes "pick" ∷ codes "place" ∷ [])

abbrev decisions : List Decision
decisions =
    record { keep = true; raises = false }
    ∷ record { keep = true; raises = true }
    ∷ record { keep = false; raises = false }
    ∷ record { keep = true; raises = false }
    ∷ []

two_prefixes-IsTurn : IsTurn (codes "pick") (codes "place") two_prefixes
unfolding new_controller
two_prefixes-IsTurn = inl (refl, refl)

decide_all-names_example :
    Adds
      (names (codes "pick") (codes "place") decisions)
      two_prefixes
      (decide_all decisions two_prefixes)
decide_all-names_example =
    decide_all-names (codes "pick") (codes "place") decisions two_prefixes two_prefixes-IsTurn

decided :
    names (codes "pick") (codes "place") decisions
    ≡ codes "pick" ∷ codes "discarded_place" ∷ codes "pick" ∷ []
unfolding discard_prefix
decided = refl

abbrev not_pending : Reads
not_pending = record {
  pending_save_decision = false;
  is_recording = true;
  in_time = true;
  raises = false;
}

abbrev press_of : Button → Event
press_of button = record { button = button; state = ButtonState.pressed }

on_pedal_event-Decides_example :
    SameEpisodes two_prefixes
      (on_pedal_event (press_of Button.b) (some not_pending) two_prefixes).controller
    ⊎ Decides (press_of Button.b) (some not_pending)
on_pedal_event-Decides_example =
    on_pedal_event-Decides (press_of Button.b) (some not_pending) two_prefixes

recovery_shows_example :
    ((healthy_polls (100 ∷ 2000 ∷ []) (get_hardware_alert (some (codes "motor")) 50 no_alert).0).1
      ≡ all_recovered 100 (100 ∷ 2000 ∷ []))
    × (get_hardware_alert none 4100
          (healthy_polls
            (100 ∷ 2000 ∷ [])
            (get_hardware_alert (some (codes "motor")) 50 no_alert).0).0
        ≡ (no_alert, hidden))
recovery_shows_example =
    recovery_shows (codes "motor") 50 100 4100 (2000 ∷ []) no_alert (omega arith, tt) (omega arith)
