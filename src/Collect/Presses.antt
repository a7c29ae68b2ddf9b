-- ===== src/Collect/Presses.antt =====
-- examples/scripts/collect_data.py: `EpisodeController.toggle_start_stop` and `on_pedal_event`. A
-- `none` of `get_state` is an exception; the other answers are what the calls that follow read.
use r2_labs.Base.{
  ◌≡◌, refl, ◌⊎◌, inl, inr, Bool, true, false, List, [], ◌∷◌, Option, none, some, if◌then◌else◌,
  arith,
}
use r2_labs.Base.Text.{Text, codes}
use r2_labs.Collect.Pedal.{Button, ButtonState, Event, released, pressed, hold}
use r2_labs.Collect.Episodes.{
  EpisodeController, Ended, Current, no_prefix, out_of_range, prefix, current, save, discard,
  start_with, start, stop, returned, not_ready, timed_out, prefix_required, index_error,
  client_raised,
}

pub record Reads : Type 0 where
  pub pending_save_decision : Bool
  pub is_recording : Bool
  pub in_time : Bool
  pub raises : Bool

-- The toasts that an event sets, and whether its handler raised.
pub record Pressed : Type 0 where
  pub controller : EpisodeController
  pub toasts : List Text
  pub raised : Bool

unfoldable pub nothing : EpisodeController → Pressed
nothing c = record { controller = c; toasts = []; raised = false }

unfoldable pub is_returned : Ended → Bool
is_returned returned = true
is_returned not_ready = false
is_returned timed_out = false
is_returned prefix_required = false
is_returned index_error = false
is_returned client_raised = false

unfoldable pub failed_toast : EpisodeController × Ended → Pressed
unfolding is_returned
failed_toast (c, e) = record {
  controller = c;
  toasts = if is_returned e then [] else codes "Start/stop failed. Check logs." ∷ [];
  raised = false;
}

unfoldable pub toggle : Reads → EpisodeController → Pressed
unfolding failed_toast nothing
toggle r c =
    if r.pending_save_decision
    then nothing c
    else if r.is_recording
    then failed_toast (stop r.raises c)
    else failed_toast (start r.in_time r.raises c)

unfoldable pub toast_after : Text → EpisodeController × Ended → Pressed
unfolding is_returned
toast_after message (c, e) =
    if is_returned e
    then record { controller = c; toasts = message ∷ []; raised = false }
    else record { controller = c; toasts = []; raised = true }

-- Button B where a decision is pending: an empty prefix is no prefix.
unfoldable pub save_press : Current → Bool → EpisodeController → Pressed
unfolding toast_after
save_press no_prefix raises c = record {
  controller = c;
  toasts = codes "Entry prefix required." ∷ [];
  raised = false;
}
save_press out_of_range raises c = record { controller = c; toasts = []; raised = true }
save_press (prefix []) raises c = record {
  controller = c;
  toasts = codes "Entry prefix required." ∷ [];
  raised = false;
}
save_press (prefix (x ∷ p)) raises c = toast_after (codes "Episode saved.") (save raises c)

unfoldable pub press : Button → Reads → EpisodeController → Pressed
unfolding toggle save_press toast_after nothing
press Button.a r c = toggle r c
press Button.b r c =
    if r.pending_save_decision
    then save_press (current c.prefixes c.prefix_index) r.raises c
    else nothing c
press Button.c r c =
    if r.pending_save_decision
    then toast_after (codes "Episode saved as discarded.") (discard r.raises c)
    else nothing c
press Button.other r c = nothing c

-- An exception of `get_state` leaves the handler; `toggle_start_stop` calls it outside its `try`.
unfoldable pub press_read : Button → Option Reads → EpisodeController → Pressed
unfolding press nothing
press_read Button.other r c = nothing c
press_read Button.a none c = record { controller = c; toasts = []; raised = true }
press_read Button.a (some r) c = press Button.a r c
press_read Button.b none c = record { controller = c; toasts = []; raised = true }
press_read Button.b (some r) c = press Button.b r c
press_read Button.c none c = record { controller = c; toasts = []; raised = true }
press_read Button.c (some r) c = press Button.c r c

unfoldable pub in_state : ButtonState → Button → Option Reads → EpisodeController → Pressed
unfolding press_read nothing
in_state released button r c = nothing c
in_state hold button r c = nothing c
in_state pressed button r c = press_read button r c

unfoldable pub on_pedal_event : Event → Option Reads → EpisodeController → Pressed
unfolding in_state
on_pedal_event e r c = in_state e.state e.button r c

-- What must hold of an event and of the state read at it for an episode to be saved.
abbrev pub Decides : Event → Option Reads → Type 0
Decides e r =
    (e.state ≡ pressed)
    × ((e.button ≡ Button.b) ⊎ (e.button ≡ Button.c))
    × ((x : Reads) × (r ≡ some x) × (x.pending_save_decision ≡ true))

-- The episodes and the counts of two controllers are the same.
abbrev pub SameEpisodes : EpisodeController → EpisodeController → Type 0
SameEpisodes c c' =
    (c'.saves ≡ c.saves)
    × (c'.saved_count ≡ c.saved_count)
    × (c'.discarded_count ≡ c.discarded_count)
    × (c'.prefix_index ≡ c.prefix_index)

start-SameEpisodes :
    (in_time raises : Bool) (c : EpisodeController) → SameEpisodes c (start in_time raises c).0
unfolding start start_with
start-SameEpisodes in_time raises c = ground arith

toggle-SameEpisodes : (r : Reads) (c : EpisodeController) → SameEpisodes c (toggle r c).controller
unfolding toggle failed_toast stop nothing
toggle-SameEpisodes r c = ground (arith, start-SameEpisodes r.in_time r.raises c)

press-SameEpisodes :
    (b : Button) (r : Reads) (c : EpisodeController)
    → SameEpisodes c (press b r c).controller
      ⊎ (((b ≡ Button.b) ⊎ (b ≡ Button.c)) × (r.pending_save_decision ≡ true))
unfolding press nothing
press-SameEpisodes Button.a r c = inl (toggle-SameEpisodes r c)
press-SameEpisodes Button.b r c = ground arith
press-SameEpisodes Button.c r c = ground arith
press-SameEpisodes Button.other r c = inl (refl, refl, refl, refl)

of_press :
    (b : Button) (x : Reads) (c : EpisodeController)
    → SameEpisodes c (press b x c).controller
      ⊎ (((b ≡ Button.b) ⊎ (b ≡ Button.c)) × (x.pending_save_decision ≡ true))
    → SameEpisodes c (press b x c).controller
      ⊎ (((b ≡ Button.b) ⊎ (b ≡ Button.c))
          × ((y : Reads) × (some x ≡ some y) × (y.pending_save_decision ≡ true)))
of_press button x c (inl same) = inl same
of_press button x c (inr (which, pending)) = inr (which, (x, refl, pending))

press_read-SameEpisodes :
    (b : Button) (r : Option Reads) (c : EpisodeController)
    → SameEpisodes c (press_read b r c).controller
      ⊎ (((b ≡ Button.b) ⊎ (b ≡ Button.c))
          × ((x : Reads) × (r ≡ some x) × (x.pending_save_decision ≡ true)))
unfolding press_read nothing
press_read-SameEpisodes Button.other r c = inl (refl, refl, refl, refl)
press_read-SameEpisodes Button.a none c = inl (refl, refl, refl, refl)
press_read-SameEpisodes Button.b none c = inl (refl, refl, refl, refl)
press_read-SameEpisodes Button.c none c = inl (refl, refl, refl, refl)
press_read-SameEpisodes Button.a (some x) c =
    of_press Button.a x c (press-SameEpisodes Button.a x c)
press_read-SameEpisodes Button.b (some x) c =
    of_press Button.b x c (press-SameEpisodes Button.b x c)
press_read-SameEpisodes Button.c (some x) c =
    of_press Button.c x c (press-SameEpisodes Button.c x c)

in_state-SameEpisodes :
    (state : ButtonState) (button : Button) (r : Option Reads) (c : EpisodeController)
    → SameEpisodes c (in_state state button r c).controller
      ⊎ ((state ≡ pressed)
          × ((button ≡ Button.b) ⊎ (button ≡ Button.c))
          × ((x : Reads) × (r ≡ some x) × (x.pending_save_decision ≡ true)))
unfolding in_state nothing
in_state-SameEpisodes released button r c = inl (refl, refl, refl, refl)
in_state-SameEpisodes hold button r c = inl (refl, refl, refl, refl)
in_state-SameEpisodes pressed button r c = elim (press_read-SameEpisodes button r c) [
  | inl same ↦ inl same
  | inr (which, pending) ↦ inr (refl, which, pending)
]

-- An event of the pedal saves, discards or counts no episode and takes no prefix's turn, unless
-- button B or C is pressed, neither released nor held, while the episode client says that a save
-- decision is pending.
pub on_pedal_event-Decides :
    (e : Event) (r : Option Reads) (c : EpisodeController)
    → SameEpisodes c (on_pedal_event e r c).controller ⊎ Decides e r
unfolding on_pedal_event
on_pedal_event-Decides e r c = in_state-SameEpisodes e.state e.button r c
