-- ===== src/Collect/Recovery.antt =====
-- After an error the page says for four seconds that the hardware recovered.
use r2_labs.Base.{ℕ, ◌+◌, ◌≡◌, ◌≤◌, ◌<◌, refl, List, [], ◌∷◌, none, some, All, arith, lt→ltb}
use r2_labs.Base.Text.{Text}
use r2_labs.Collect.Alerts.{
  HardwareAlertState, Alert, recovered_alert, hidden, no_alert, note_recovery, show_recovery,
  recovery_alert_duration, get_hardware_alert,
}

-- What the page shows at polls that find no error.
abbrev pub healthy_polls : List ℕ → HardwareAlertState → HardwareAlertState × List Alert
healthy_polls [] a = (a, [])
healthy_polls (t ∷ ts) a =
    let (a', shown) = get_hardware_alert none t a in
    let rest = healthy_polls ts a' in (rest.0, shown ∷ rest.1)

abbrev pub all_recovered : ℕ → List ℕ → List Alert
all_recovered t [] = []
all_recovered t (_ ∷ ts) = recovered_alert t ∷ all_recovered t ts

abbrev recovering : ℕ → HardwareAlertState
recovering t = record {
  last_error_summary = none;
  recovered_at = some t;
  recovered_expires_at = t + recovery_alert_duration;
}

poll-recovering :
    (t now : ℕ)
    → now < t + recovery_alert_duration
    → get_hardware_alert none now (recovering t) ≡ (recovering t, recovered_alert t)
unfolding get_hardware_alert note_recovery show_recovery
poll-recovering t now h = rw (lt→ltb now (t + recovery_alert_duration) h)

healthy_polls-recovering :
    (t : ℕ) (ts : List ℕ)
    → All (λ now. now < t + recovery_alert_duration) ts
    → healthy_polls ts (recovering t) ≡ (recovering t, all_recovered t ts)
healthy_polls-recovering t [] h = refl
healthy_polls-recovering t (now ∷ ts) (h, hs) =
    rw (poll-recovering t now h, healthy_polls-recovering t ts hs)

poll-expired :
    (t now : ℕ)
    → t + recovery_alert_duration ≤ now
    → get_hardware_alert none now (recovering t) ≡ (no_alert, hidden)
unfolding get_hardware_alert note_recovery show_recovery
poll-expired t now h = ground (arith, h)

poll-error :
    (e : Text) (before t : ℕ) (a : HardwareAlertState)
    → get_hardware_alert none t (get_hardware_alert (some e) before a).0
      ≡ (recovering t, recovered_alert t)
unfolding get_hardware_alert note_recovery show_recovery
poll-error e before t a = rw (lt→ltb t (t + recovery_alert_duration) (omega arith))

-- If the first poll that finds no error after one that did is at `t`, it and all later polls before
-- t + 4 s show the recovery, with the time `t`; the first one from t + 4 s on, without a new error
-- before it, shows nothing and leaves no trace of the error or of the recovery.
pub recovery_shows :
    (e : Text) (before t later : ℕ) (ts : List ℕ) (a : HardwareAlertState)
    → All (λ now. now < t + recovery_alert_duration) ts
    → t + recovery_alert_duration ≤ later
    → let polled = healthy_polls (t ∷ ts) (get_hardware_alert (some e) before a).0 in
      (polled.1 ≡ all_recovered t (t ∷ ts))
      × (get_hardware_alert none later polled.0 ≡ (no_alert, hidden))
recovery_shows e before t later ts a h k =
    rw (poll-error e before t a, healthy_polls-recovering t ts h) (refl, poll-expired t later k)
