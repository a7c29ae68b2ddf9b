-- ===== src/Models/Loading.antt =====
-- What a wait for models that returns has seen, and when a wait gives up.
use r2_labs.Base.{
  ℕ, ◌+◌, ◌≡◌, ◌≢◌, ◌<◌, refl, ap, ◌∙◌, inl, inr, true, List, [], ◌∷◌, ◌++◌, Option, none, some,
  Option-cases, is_some, arith, lt→ltb,
}
use mathlib.Core.Option.{some-injective}
use r2_labs.Base.Text.{Text, text_eq, text_beq_iff}
use r2_labs.Base.Dict.{lookup}
use r2_labs.Models.{
  ModelState, loading, loaded, failed, ModelStatus, Models, GetModelServerStatusResponse, Outcome,
  done, waiting, status_or_error, get_status, contains, is_state, requested_in, still_loading,
  missing, checked, poll_interval, Poll, round_ends, round_of, wait,
}

-- The server has the model, loaded.
abbrev pub IsLoaded : Models → Text → Type 0
IsLoaded models model_id =
    (s : ModelStatus) × (lookup model_id models ≡ some s) × (s.state ≡ loaded)

-- A poll's answer, and the models that it holds.
abbrev pub Holds : Poll → Models → Type 0
Holds p models =
    (r : GetModelServerStatusResponse) × (p.reply ≡ some r)
    × (r.models ≡ some models)
    × (r.error ≡ [])

-- A requested model that is found in a state is among those in that state.
requested_in-lookup :
    (state : ModelState) (requested : List Text) (models : Models) (model_id : Text)
    (s : ModelStatus)
    → contains model_id requested ≡ true
    → lookup model_id models ≡ some s
    → is_state s.state state ≡ true
    → requested_in state requested models ≢ []
unfolding requested_in lookup
requested_in-lookup state requested [] model_id s c l h e = cc
requested_in-lookup state requested ((j, t) ∷ models) model_id s c l h e =
    let ih = requested_in-lookup state requested models model_id s c in
    ground (arith, text_beq_iff j model_id, ih)

missing-lookup :
    (requested : List Text) (models : Models) (model_id : Text)
    → contains model_id requested ≡ true
    → missing requested models ≡ []
    → is_some (lookup model_id models) ≡ true
unfolding contains missing
missing-lookup [] models model_id c e = cc
missing-lookup (y ∷ ys) models model_id c e =
    ground (arith, text_beq_iff y model_id, missing-lookup ys models model_id)

state-loaded : (t : ModelState) → is_state t loading ≢ true → is_state t failed ≢ true → t ≡ loaded
unfolding is_state
state-loaded loading l f = absurd (l refl)
state-loaded loaded l f = refl
state-loaded failed l f = absurd (f refl)

is_some-none : {o : Option ModelStatus} → o ≡ none → is_some o ≡ true → ⊥
is_some-none e h = ground (arith, e, h)

found-IsLoaded :
    (models : Models) (model_id : Text) (requested : List Text)
    → contains model_id requested ≡ true
    → requested_in loading requested models ≡ []
    → requested_in failed requested models ≡ []
    → missing requested models ≡ []
    → IsLoaded models model_id
found-IsLoaded models model_id requested c l f m = elim (Option-cases (lookup model_id models)) [
  | inl e ↦ absurd (is_some-none e (missing-lookup requested models model_id c m))
  | inr (s, e) ↦ (
    s,
    e,
    state-loaded s.state (λ q. requested_in-lookup loading requested models model_id s c e q l)
        (λ q. requested_in-lookup failed requested models model_id s c e q f),
  )
]

checked-done : (f : Models) (m : List Text) → checked f m ≡ done → (f ≡ []) × (m ≡ [])
unfolding checked
checked-done [] [] h = (refl, refl)
checked-done (x ∷ f) m h = cc
checked-done [] (x ∷ m) h = cc

-- What a round that ends a wait well has seen.
abbrev pub SeesLoaded : List Text → Poll → Type 0
SeesLoaded requested p =
    (models : Models) × Holds p models
    × ((model_id : Text) → contains model_id requested ≡ true → IsLoaded models model_id)

round_ends-done :
    (requested : List Text) (deadline now : ℕ) (models l : Models)
    → still_loading requested models ≡ l
    → round_ends requested deadline now models l ≡ some done
    → (model_id : Text) → contains model_id requested ≡ true
    → IsLoaded models model_id
unfolding round_ends still_loading
round_ends-done requested deadline now models [] e h model_id c =
    let (f, m) =
      checked-done (requested_in failed requested models) (missing requested models)
        (some-injective _ _ h) in
    found-IsLoaded models model_id requested c e f m
round_ends-done requested deadline now models (x ∷ l) e h model_id c = ground (arith, h)

status-SeesLoaded :
    (requested : List Text) (deadline : ℕ) (p : Poll) (r : GetModelServerStatusResponse)
    (models : Option Models) (error : Text)
    → p.reply ≡ some r
    → r.models ≡ models
    → r.error ≡ error
    → round_of requested deadline p.now (status_or_error models error) ≡ some done
    → SeesLoaded requested p
unfolding round_of status_or_error
status-SeesLoaded requested deadline p r models (x ∷ e) q k n h = cc
status-SeesLoaded requested deadline p r none [] q k n h = cc
status-SeesLoaded requested deadline p r (some models) [] q k n h = (
  models,
  (r, q, k, n),
  round_ends-done requested deadline p.now models (still_loading requested models) refl h,
)

reply-SeesLoaded :
    (requested : List Text) (deadline : ℕ) (p : Poll) (reply : Option GetModelServerStatusResponse)
    → p.reply ≡ reply
    → round_of requested deadline p.now (get_status reply) ≡ some done
    → SeesLoaded requested p
unfolding get_status
reply-SeesLoaded requested deadline p none q h = unfold round_of in cc
reply-SeesLoaded requested deadline p (some r) q h =
    status-SeesLoaded requested deadline p r r.models r.error q refl refl h

-- A wait that returns has a round whose answer has every requested model, and has it loaded.
pub record Returned (requested : List Text) (ps : List Poll) : Type 0 where
  pub before : List Poll
  pub last : Poll
  pub after : List Poll
  pub split : ps ≡ before ++ last ∷ after
  pub sees : SeesLoaded requested last

-- If a wait for models returns, then the server has answered one of its polls, without an error,
-- with every requested model among its models, each of them loaded.
pub wait-Returned :
    (requested : List Text) (deadline : ℕ) (ps : List Poll)
    → wait requested deadline ps ≡ done
    → Returned requested ps
unfolding wait
wait-Returned requested deadline [] h = cc
wait-Returned requested deadline (p ∷ ps) h =
    elim (Option-cases (round_of requested deadline p.now (get_status p.reply))) [
      | inl e ↦
          let ih = wait-Returned requested deadline ps (ground (arith, h, e)) in
          record {
            before = p ∷ ih.before;
            last = ih.last;
            after = ih.after;
            split = ap (◌∷◌ p) ih.split;
            sees = ih.sees;
          }
      | inr (o, e) ↦
          let q : o ≡ done = ground (arith, h, e) in
          record {
            before = [];
            last = p;
            after = ps;
            split = refl;
            sees = reply-SeesLoaded requested deadline p p.reply refl (e ∙ ap some q);
          }
    ]

round_of-late :
    (requested : List Text) (deadline now : ℕ) (x : Option Models × Outcome)
    → deadline < now + poll_interval
    → round_of requested deadline now x ≢ none
unfolding round_of round_ends
round_of-late requested deadline now x h e =
    let k = lt→ltb deadline (now + poll_interval) h in ground (arith, k, e)

round_of-waiting :
    (requested : List Text) (deadline now : ℕ) (reply : Option GetModelServerStatusResponse)
    → round_of requested deadline now (get_status reply) ≢ some waiting
unfolding round_of round_ends get_status status_or_error checked
round_of-waiting requested deadline now reply h = ground (arith, h)

-- No wait for models goes on past a round after which the next poll would come after the deadline,
-- whatever the server answers before it and in it.
pub wait_gives_up :
    (requested : List Text) (deadline : ℕ) (before : List Poll) (p : Poll) (after : List Poll)
    → deadline < p.now + poll_interval
    → wait requested deadline (before ++ p ∷ after) ≢ waiting
unfolding wait
wait_gives_up requested deadline [] p after h e = ground (
  arith,
  e,
  round_of-late requested deadline p.now (get_status p.reply) h,
  round_of-waiting requested deadline p.now p.reply,
)
wait_gives_up requested deadline (q ∷ before) p after h e = ground (
  arith,
  e,
  wait_gives_up requested deadline before p after h,
  round_of-waiting requested deadline q.now q.reply,
)
