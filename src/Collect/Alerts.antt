-- ===== src/Collect/Alerts.antt =====
-- examples/scripts/collect_data.py: the toast, the phase of the page and the hardware alert. Times
-- are in milliseconds; `str.strip` is a parameter.
use r2_labs.Base.{ℕ, ◌+◌, Bool, true, [], ◌∷◌, Option, none, some, if◌then◌else◌, ltb}
use r2_labs.Base.Text.{Text, codes}

pub record ToastState : Type 0 where
  pub message : Text
  pub expires_at : ℕ

unfoldable pub set_toast : Text → ℕ → ℕ → ToastState → ToastState
set_toast [] duration now t = t
set_toast (x ∷ message) duration now t = record {
  message = x ∷ message;
  expires_at = now + duration;
}

abbrev pub no_toast : ToastState
no_toast = record { message = []; expires_at = 0 }

unfoldable pub show_toast : Text → ℕ → ToastState → ToastState × Text
show_toast [] now t = (no_toast, [])
show_toast (x ∷ message) now t = if ltb now t.expires_at then (t, x ∷ message) else (no_toast, [])

-- The text to show; the page's class is "toast show" where it is not empty.
unfoldable pub get_toast : ℕ → ToastState → ToastState × Text
unfolding show_toast
get_toast now t = show_toast t.message now t

-- What the alerts and the phase read of a state; an old server's lacks the first two.
pub record EpisodeState : Type 0 where
  pub hardware_healthy : Option Bool
  pub hardware_summary : Option Text
  pub control_message : Option Text
  pub pending_save_decision : Bool
  pub is_recording : Bool

unfoldable pub text_or_empty : Option Text → Text
text_or_empty none = []
text_or_empty (some t) = t

unfoldable pub is_healthy : Option Bool → Bool
is_healthy none = true
is_healthy (some b) = b

unfoldable pub or_else : Text → Text → Text
or_else [] b = b
or_else (x ∷ a) b = x ∷ a

unfoldable pub error_summary : (Text → Text) → EpisodeState → Option Text
unfolding text_or_empty is_healthy or_else
error_summary strip s =
    if is_healthy s.hardware_healthy
    then none
    else some (
        or_else (strip (text_or_empty s.hardware_summary))
          (or_else (strip (text_or_empty s.control_message)) (codes "Hardware is unhealthy.")))

pub data UiPhase : Type 0 where
  hardware_error pending_save recording resetting ready : UiPhase

unfoldable pub phase_after : Option Text → EpisodeState → Bool → UiPhase
phase_after (some e) s reset_ready = hardware_error
phase_after none s reset_ready =
    if s.pending_save_decision
    then pending_save
    else if s.is_recording
    then recording
    else if reset_ready
    then ready
    else resetting

unfoldable pub derive_ui_phase : (Text → Text) → EpisodeState → Bool → UiPhase
unfolding error_summary phase_after
derive_ui_phase strip s reset_ready = phase_after (error_summary strip s) s reset_ready

abbrev pub recovery_alert_duration : ℕ
recovery_alert_duration = 4000

pub record HardwareAlertState : Type 0 where
  pub last_error_summary : Option Text
  pub recovered_at : Option ℕ
  pub recovered_expires_at : ℕ

abbrev pub no_alert : HardwareAlertState
no_alert = record { last_error_summary = none; recovered_at = none; recovered_expires_at = 0 }

pub data Alert : Type 0 where
  error_alert : Text → Alert
  recovered_alert : ℕ → Alert
  hidden : Alert

-- The first of the two tests that follow the error's.
unfoldable pub note_recovery : Option Text → ℕ → HardwareAlertState → HardwareAlertState
note_recovery none now a = a
note_recovery (some e) now a = record {
  last_error_summary = none;
  recovered_at = some now;
  recovered_expires_at = now + recovery_alert_duration;
}

unfoldable pub show_recovery : Option ℕ → ℕ → HardwareAlertState → HardwareAlertState × Alert
show_recovery none now a = (record a { recovered_at = none; recovered_expires_at = 0 }, hidden)
show_recovery (some at) now a =
    if ltb now a.recovered_expires_at
    then (a, recovered_alert at)
    else (record a { recovered_at = none; recovered_expires_at = 0 }, hidden)

unfoldable pub get_hardware_alert :
    Option Text → ℕ → HardwareAlertState → HardwareAlertState × Alert
unfolding note_recovery show_recovery
get_hardware_alert (some e) now a = (
  record { last_error_summary = some e; recovered_at = none; recovered_expires_at = 0 },
  error_alert e,
)
get_hardware_alert none now a =
    let noted = note_recovery a.last_error_summary now a in
    show_recovery noted.recovered_at now noted
