-- ===== src/Collect/Episodes.antt =====
-- examples/scripts/collect_data.py: `ResetCoordinator`, `EpisodeController` and `on_pedal_event`. An
-- episode client's call raises or returns as the last argument says; of `save` the names that the
-- episode client was given are kept.
use r2_labs.Base.{
  ℕ, suc, ◌-◌, Bool, true, false, List, [], ◌∷◌, ◌++◌, Option, none, some, if◌then◌else◌, ◌==◌,
  length, get_elem?,
}
use r2_labs.Base.Text.{Text, codes}

-- The events, as flags. The methods set and clear them without a lock; each function is a call that no
-- other thread comes between.
pub record ResetCoordinator : Type 0 where
  pub reset_requested : Bool
  pub start_requested : Bool
  pub ready : Bool
  pub waiting_for_start : Bool
  pub ready_for_start : Bool
  pub stopped : Bool

unfoldable pub new_coordinator : ResetCoordinator
new_coordinator = record {
  reset_requested = false;
  start_requested = false;
  ready = false;
  waiting_for_start = false;
  ready_for_start = false;
  stopped = false;
}

unfoldable pub request_reset : ResetCoordinator → ResetCoordinator
request_reset r = record r {
  ready = false;
  ready_for_start = false;
  waiting_for_start = false;
  start_requested = false;
  reset_requested = true;
}

unfoldable pub request_start : ResetCoordinator → ResetCoordinator × Bool
request_start r =
    if r.ready_for_start
    then (
      record r { ready_for_start = false; waiting_for_start = false; start_requested = true },
      true,
    )
    else (r, false)

unfoldable pub allow_start_retry : ResetCoordinator → ResetCoordinator
allow_start_retry r = record r {
  ready_for_start = true;
  waiting_for_start = false;
  start_requested = false;
}

unfoldable pub stop_coordinator : ResetCoordinator → ResetCoordinator
stop_coordinator r = record r { stopped = true; reset_requested = true }

pub record EpisodeController : Type 0 where
  pub coordinator : ResetCoordinator
  pub prefixes : List Text
  pub prefix_index : ℕ
  pub saved_count : ℕ
  pub discarded_count : ℕ
  pub saves : List Text

unfoldable pub init : ResetCoordinator → List Text → EpisodeController
init r prefixes = record {
  coordinator = r;
  prefixes = prefixes;
  prefix_index = 0;
  saved_count = 0;
  discarded_count = 0;
  saves = [];
}

-- How a method ends.
pub data Ended : Type 0 where
  returned not_ready timed_out prefix_required index_error client_raised : Ended

unfoldable pub is_alternating : EpisodeController → Bool
is_alternating c = length c.prefixes == 2

-- The prefix that the next episode is saved under: none where there are no prefixes, an IndexError
-- where the index lies beyond them.
pub data Current : Type 0 where
  no_prefix out_of_range : Current
  prefix : Text → Current

unfoldable pub prefix_at : Option Text → Current
prefix_at none = out_of_range
prefix_at (some p) = prefix p

unfoldable pub current : List Text → ℕ → Current
unfolding prefix_at
current [] i = no_prefix
current (p ∷ ps) i = prefix_at (get_elem? (p ∷ ps) i)

unfoldable pub advance_prefix : EpisodeController → EpisodeController
unfolding is_alternating
advance_prefix c = if is_alternating c then record c { prefix_index = 1 - c.prefix_index } else c

-- The call of the episode client and, if it returns, the changes that `f` makes after it.
unfoldable pub save_as :
    Text
    → Bool
    → (EpisodeController → EpisodeController)
    → EpisodeController
    → EpisodeController × Ended
unfolding advance_prefix
save_as name raises f c =
    let named = record c { saves = c.saves ++ name ∷ [] } in
    if raises then (c, client_raised) else (advance_prefix (f named), returned)

unfoldable pub save_current : Current → Bool → EpisodeController → EpisodeController × Ended
unfolding save_as
save_current no_prefix raises c = (c, prefix_required)
save_current out_of_range raises c = (c, index_error)
save_current (prefix p) raises c =
    save_as p raises (λ x. record x { saved_count = suc x.saved_count }) c

unfoldable pub save : Bool → EpisodeController → EpisodeController × Ended
unfolding save_current current
save raises c = save_current (current c.prefixes c.prefix_index) raises c

-- An empty prefix is no prefix.
unfoldable pub discard_prefix : Text → Text
discard_prefix [] = codes "discarded"
discard_prefix (x ∷ p) = codes "discarded_" ++ (x ∷ p)

unfoldable pub discard_current : Current → Bool → EpisodeController → EpisodeController × Ended
unfolding save_as discard_prefix
discard_current no_prefix raises c =
    save_as (discard_prefix []) raises (λ x. record x { discarded_count = suc x.discarded_count }) c
discard_current out_of_range raises c = (c, index_error)
discard_current (prefix p) raises c =
    save_as (discard_prefix p) raises (λ x. record x { discarded_count = suc x.discarded_count }) c

unfoldable pub discard : Bool → EpisodeController → EpisodeController × Ended
unfolding discard_current current
discard raises c = discard_current (current c.prefixes c.prefix_index) raises c

unfoldable pub entry_prefixes : Option Text → List Text
entry_prefixes none = []
entry_prefixes (some []) = []
entry_prefixes (some (x ∷ p)) = (x ∷ p) ∷ []

unfoldable pub set_entry_prefix : Option Text → EpisodeController → EpisodeController
unfolding is_alternating entry_prefixes
set_entry_prefix p c = if is_alternating c then c else record c { prefixes = entry_prefixes p }

-- `start`: what the wait for the reset answers, and whether the client's `start` raises.
unfoldable pub start_with :
    ResetCoordinator × Bool → Bool → Bool → EpisodeController → EpisodeController × Ended
unfolding request_reset allow_start_retry
start_with (r, false) in_time raises c = (c, not_ready)
start_with (r, true) in_time raises c =
    if in_time
    then if raises
      then (record c { coordinator = allow_start_retry r }, client_raised)
      else (record c { coordinator = r }, returned)
    else (record c { coordinator = request_reset r }, timed_out)

unfoldable pub start : Bool → Bool → EpisodeController → EpisodeController × Ended
unfolding start_with request_start
start in_time raises c = start_with (request_start c.coordinator) in_time raises c

unfoldable pub stop : Bool → EpisodeController → EpisodeController × Ended
unfolding request_reset
stop raises c =
    if raises
    then (c, client_raised)
    else (record c { coordinator = request_reset c.coordinator }, returned)
