-- ===== src/Collect/Pedal.antt =====
-- examples/scripts/collect_data.py: `Button`, `ButtonState`, `Event` and `PedalListener`. evdev's
-- codes are parameters; what the device, `stop` and the handler do is what the loop reads. Time is
-- in milliseconds.
use r2_labs.Base.{
  ℕ, zero, suc, ◌*◌, ◌^◌, min, Bool, true, false, List, [], ◌∷◌, Option, none, some, if◌then◌else◌,
  ◌==◌,
}

pub data Button : Type 0 where
  a b c other : Button

pub data ButtonState : Type 0 where
  released pressed hold : ButtonState

pub record Event : Type 0 where
  pub button : Button
  pub state : ButtonState

pub record Ecodes : Type 0 where
  pub key_a : ℕ
  pub key_b : ℕ
  pub key_c : ℕ
  pub ev_key : ℕ

-- evdev's own event.
pub record InputEvent : Type 0 where
  pub type : ℕ
  pub code : ℕ
  pub value : ℕ

unfoldable pub from_evdev_code : Ecodes → ℕ → Button
from_evdev_code e code =
    if code == e.key_a
    then Button.a
    else if code == e.key_b
    then Button.b
    else if code == e.key_c
    then Button.c
    else Button.other

-- `none` is the ValueError.
unfoldable pub from_evdev_value : ℕ → Option ButtonState
from_evdev_value value =
    if value == 0
    then some ButtonState.released
    else if value == 1
    then some ButtonState.pressed
    else if value == 2
    then some ButtonState.hold
    else none

unfoldable pub event_of : Button → Option ButtonState → Option Event
event_of button none = none
event_of button (some state) = some (record { button = button; state = state })

unfoldable pub from_evdev_event : Ecodes → InputEvent → Option Event
unfolding event_of from_evdev_code from_evdev_value
from_evdev_event e i = event_of (from_evdev_code e i.code) (from_evdev_value i.value)

unfoldable pub is_pedal_event : Ecodes → InputEvent → Bool
is_pedal_event e i = i.type == e.ev_key

abbrev pub max_reconnect_attempts : ℕ
max_reconnect_attempts = 30

abbrev pub reconnect_base_delay : ℕ
reconnect_base_delay = 500

abbrev pub reconnect_max_delay : ℕ
reconnect_max_delay = 3000

-- `device` is the open device, `thread` whether `_thread` is set.
pub record PedalListener : Type 0 where
  pub device : Option ℕ
  pub thread : Bool
  pub running : Bool

-- What InputDevice does: a device, FileNotFoundError or another OSError.
pub data Opening : Type 0 where
  opened : ℕ → Opening
  not_found os_error : Opening

pub data Raised : Type 0 where
  value_error raised_os_error : Raised

unfoldable pub init : PedalListener
init = record { device = none; thread = false; running = false }

unfoldable pub open_device : Opening → PedalListener → PedalListener × Option Raised
open_device (opened d) l = (record l { device = some d }, none)
open_device not_found l = (l, some value_error)
open_device os_error l = (l, some raised_os_error)

-- An OSError of the device's `close` is ignored.
unfoldable pub close_device : PedalListener → PedalListener
close_device l = record l { device = none }

unfoldable pub delay : ℕ → ℕ
delay attempt = min (reconnect_base_delay * 2 ^ min attempt 3) reconnect_max_delay

-- What one attempt reads: `_running` at its begin and after its sleep, and the device.
pub record Attempt : Type 0 where
  pub stopped_before : Bool
  pub stopped_after : Bool
  pub opening : Opening

unfoldable pub reconnect_with :
    PedalListener × Option Raised → PedalListener × Bool → PedalListener × Bool
reconnect_with (l, none) rest = (l, true)
reconnect_with (l, some x) rest = rest

-- The attempts from `attempt` on, of which `left` are left.
unfoldable pub reconnect_from : ℕ → ℕ → (ℕ → Attempt) → PedalListener → PedalListener × Bool
unfolding reconnect_with open_device
reconnect_from zero attempt reads l = (l, false)
reconnect_from (suc left) attempt reads l =
    let r = reads attempt in
    let rest = reconnect_from left (suc attempt) reads l in
    if r.stopped_before
    then (l, false)
    else if r.stopped_after
    then (l, false)
    else reconnect_with (open_device r.opening l) rest

unfoldable pub reconnect : (ℕ → Attempt) → PedalListener → PedalListener × Bool
unfolding reconnect_from
reconnect reads l = reconnect_from max_reconnect_attempts 0 reads l

-- What the loop reads: an event, with whether `_running` has been reset and whether the handler
-- raises, or the loss of the device, with the attempts to reconnect.
pub data Input : Type 0 where
  event : Bool → Bool → InputEvent → Input
  lost : Bool → (ℕ → Attempt) → Input

-- Why the loop ended: it has not, `stop`, no reconnection, or a ValueError.
pub data Ending : Type 0 where
  listening by_stop gave_up invalid_value : Ending

pub record Heard : Type 0 where
  pub listener : PedalListener
  pub clicks : List Event
  pub ending : Ending

unfoldable pub add_click : Event → Heard → Heard
add_click e x = record x { clicks = e ∷ x.clicks }

-- The call of `on_click`: an exception of the handler is logged.
unfoldable pub click : Bool → Option Event → PedalListener → Heard → Heard
unfolding add_click
click raises none l rest = record { listener = l; clicks = []; ending = invalid_value }
click raises (some e) l rest = add_click e rest

unfoldable pub event_loop : Ecodes → List Input → PedalListener → Heard
unfolding click is_pedal_event from_evdev_event close_device reconnect
event_loop codes [] l = record { listener = l; clicks = []; ending = listening }
event_loop codes (event stopped raises i ∷ rest) l =
    let after = event_loop codes rest l in
    if stopped
    then record { listener = l; clicks = []; ending = by_stop }
    else if is_pedal_event codes i
    then click raises (from_evdev_event codes i) l after
    else after
event_loop codes (lost stopped reads ∷ rest) l =
    let tried = reconnect reads (close_device l) in
    let after = event_loop codes rest tried.0 in
    if stopped
    then record { listener = l; clicks = []; ending = by_stop }
    else if tried.1
    then after
    else record { listener = tried.0; clicks = []; ending = gave_up }

unfoldable pub start_thread : PedalListener × Option Raised → PedalListener × Option Raised
start_thread (l, none) = (record l { thread = true }, none)
start_thread (l, some x) = (l, some x)

unfoldable pub start : Opening → PedalListener → PedalListener × Option Raised
unfolding start_thread open_device
start o l =
    if l.running then (l, none) else start_thread (open_device o (record l { running = true }))

unfoldable pub stop : PedalListener → PedalListener
unfolding close_device
stop l =
    if l.running then record (close_device (record l { running = false })) { thread = false } else l
