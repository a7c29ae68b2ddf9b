-- ===== src/Collect/Clicks.antt =====
-- What a pedal listener reports to its handler.
use r2_labs.Base.{
  ℕ, ◌≡◌, ◌<◌, refl, ◌⊎◌, inl, inr, false, List, [], ◌∷◌, Option, none, some, if◌then◌else◌, arith,
  All,
}
use r2_labs.Collect.Pedal.{
  Event, Ecodes, from_evdev_event, is_pedal_event, max_reconnect_attempts, PedalListener,
  close_device, Input, event, lost, listening, Heard, add_click, click, event_loop,
}
use r2_labs.Collect.Reconnects.{IsFirst, reconnect-IsFirst}

-- An input after which a listener that nobody stops goes on: an event that is no key's or has one
-- of the three values, or a loss whose reconnection has an attempt that opens a device.
abbrev pub GoesOn : Ecodes → Input → Type 0
GoesOn codes (event stopped raises i) =
    (stopped ≡ false)
    × ((is_pedal_event codes i ≡ false) ⊎ ((e : Event) × (from_evdev_event codes i ≡ some e)))
GoesOn codes (lost stopped reads) =
    (stopped ≡ false) × ((k : ℕ) × (d : ℕ) × (k < max_reconnect_attempts) × IsFirst reads k d)

abbrev pub event_before : Option Event → List Event → List Event
event_before none es = es
event_before (some e) es = e ∷ es

-- The events of keys among the inputs, in order.
abbrev pub key_events : Ecodes → List Input → List Event
key_events codes [] = []
key_events codes (event stopped raises i ∷ rest) =
    let es = key_events codes rest in
    if is_pedal_event codes i then event_before (from_evdev_event codes i) es else es
key_events codes (lost stopped reads ∷ rest) = key_events codes rest

abbrev pub Reports : Ecodes → List Input → Heard → Type 0
Reports codes inputs x = (x.clicks ≡ key_events codes inputs) × (x.ending ≡ listening)

-- While nobody stops the listener, every event of a key has a valid value and every loss of the
-- device has among its thirty attempts one that opens it again, with only failures before it, the
-- listener goes on and calls its handler once for every event of a key, in order, whatever the
-- handler raises.
pub event_loop-Reports :
    (codes : Ecodes) (inputs : List Input) (l : PedalListener)
    → All (GoesOn codes) inputs
    → Reports codes inputs (event_loop codes inputs l)
unfolding event_loop click add_click
event_loop-Reports codes [] l h = (refl, refl)
event_loop-Reports codes (event stopped raises i ∷ rest) l ((s, inl p), hs) =
    ground (arith, s, p, event_loop-Reports codes rest l hs)
event_loop-Reports codes (event stopped raises i ∷ rest) l ((s, inr (e, p)), hs) =
    ground (arith, s, p, event_loop-Reports codes rest l hs)
event_loop-Reports codes (lost stopped reads ∷ rest) l ((s, (k, d, less, first)), hs) =
    let back = reconnect-IsFirst reads k d (close_device l) less first in
    rw (s, back) (event_loop-Reports codes rest (record (close_device l) { device = some d }) hs)
