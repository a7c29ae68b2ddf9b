-- ===== src/Models.antt =====
-- sdk/client.py: `ModelsClient`, with its data of sdk/rpc_api.py. What the server answers and the
-- clock are what a call or a round reads; times are in milliseconds.
use r2_labs.Base.{
  ℕ, ◌+◌, Bool, true, false, ◌&&◌, List, [], ◌∷◌, ◌++◌, Option, none, some, if◌then◌else◌, ltb, map,
  is_some,
}
use r2_labs.Base.Text.{Text, text_eq, text_beq, codes}
use r2_labs.Base.Dict.{lookup}
use r2_labs.Base.Order.{sorted}
pub mod Loading
mod Examples

pub data ModelState : Type 0 where
  loading loaded failed : ModelState

pub record ModelStatus : Type 0 where
  pub state : ModelState
  pub error : Option Text

abbrev pub Models : Type 0
Models = List (Text × ModelStatus)

-- An empty error is none.
pub record GetModelServerStatusResponse : Type 0 where
  pub models : Option Models
  pub error : Text

-- How a call ends. `call_raised` is an exception of the remote call itself.
pub data Outcome : Type 0 where
  done call_raised assertion_error waiting : Outcome
  runtime_error : Text → Outcome
  timeout_error : List Text → Outcome
  models_not_loaded : Models → List Text → Outcome

-- The answers to the `models.load` calls; a `none` is a call that raises.
unfoldable pub preload : (Text → Option Text) → List Text → List Text × Outcome
preload answers [] = ([], done)
preload answers (model_id ∷ ids) =
    let rest = preload answers ids in
    elim (answers model_id) [
      | none ↦ (model_id ∷ [], call_raised)
      | some error ↦ elim error [
        | [] ↦ (model_id ∷ rest.0, rest.1)
        | x ∷ e ↦ (model_id ∷ [], runtime_error (x ∷ e))
      ]
    ]

-- Either the models, or how the call raised.
unfoldable pub status_or_error : Option Models → Text → Option Models × Outcome
status_or_error models (x ∷ e) = (none, runtime_error (x ∷ e))
status_or_error none [] = (none, assertion_error)
status_or_error (some models) [] = (some models, done)

unfoldable pub get_status : Option GetModelServerStatusResponse → Option Models × Outcome
unfolding status_or_error
get_status none = (none, call_raised)
get_status (some r) = status_or_error r.models r.error

unfoldable pub contains : Text → List Text → Bool
contains x [] = false
contains x (y ∷ ys) = if text_beq y x then true else contains x ys

unfoldable pub is_state : ModelState → ModelState → Bool
is_state loading loading = true
is_state loaded loaded = true
is_state failed failed = true
is_state _ _ = false

-- The requested models in a state.
unfoldable pub requested_in : ModelState → List Text → Models → Models
unfolding contains is_state
requested_in state requested [] = []
requested_in state requested ((model_id, s) ∷ models) =
    let rest = requested_in state requested models in
    if contains model_id requested && is_state s.state state then (model_id, s) ∷ rest else rest

unfoldable pub still_loading : List Text → Models → Models
unfolding requested_in
still_loading requested models = requested_in loading requested models

-- `requested - models.keys()`
unfoldable pub missing : List Text → Models → List Text
missing [] models = []
missing (model_id ∷ requested) models =
    let rest = missing requested models in
    if is_some (lookup model_id models) then rest else model_id ∷ rest

unfoldable pub checked : Models → List Text → Outcome
checked [] [] = done
checked (f ∷ fs) not_loaded = models_not_loaded (f ∷ fs) not_loaded
checked [] (m ∷ ms) = models_not_loaded [] (m ∷ ms)

abbrev pub poll_interval : ℕ
poll_interval = 100

pub record Poll : Type 0 where
  pub reply : Option GetModelServerStatusResponse
  pub now : ℕ

-- What a round decides, of the models that still load; none where it sleeps.
unfoldable pub round_ends : List Text → ℕ → ℕ → Models → Models → Option Outcome
unfolding checked
round_ends requested deadline now models [] =
    some (checked (requested_in failed requested models) (missing requested models))
round_ends requested deadline now models (l ∷ ls) =
    if ltb deadline (now + poll_interval)
    then some (timeout_error (sorted (map (λ x. x.0) (l ∷ ls))))
    else none

unfoldable pub round_of : List Text → ℕ → ℕ → Option Models × Outcome → Option Outcome
unfolding round_ends still_loading
round_of requested deadline now (none, o) = some o
round_of requested deadline now (some models, o) =
    round_ends requested deadline now models (still_loading requested models)

-- `wait`, over the rounds that have passed.
unfoldable pub wait : List Text → ℕ → List Poll → Outcome
unfolding round_of get_status
wait requested deadline [] = waiting
wait requested deadline (p ∷ ps) =
    let rest = wait requested deadline ps in
    elim (round_of requested deadline p.now (get_status p.reply)) [ none ↦ rest | some o ↦ o ]

-- `ModelsNotLoadedError`: the two parts of its details, before they are joined by "; ".
unfoldable pub failed_detail : Text × ModelStatus → Text
failed_detail (model_id, s) =
    model_id ++ (codes ": failed: " ++ elim s.error [ none ↦ codes "None" | some e ↦ e ])

unfoldable pub details : Models → List Text → List Text
unfolding failed_detail
details failures not_loaded =
    map failed_detail failures
    ++ map (λ model_id. model_id ++ codes ": not loaded") (sorted not_loaded)
