-- ===== src/Sdk/Forms.antt =====
-- The requests of all the wrappers: their queries' fields, and the classes of their responses.
use Prim.Native.String.{String}
use package.text.Mathlib.Text.{◌==◌ as str_eq}
use package.text.Mathlib.TextEquality.{eq_iff}
use mathlib.Core.Logic.{◌⊎◌}
use r2_labs.Base.{
  ℕ, ◌≡◌, ◌≢◌, refl, Bool, true, false, ◌&&◌, List, [], ◌∷◌, ◌++◌, Option, none, some,
  if◌then◌else◌, is_some, Option-cases, Bool-cases, inl, inr, ap, All, all, arith,
}
use r2_labs.Base.Dict.{lookup}
use r2_labs.Base.Order.{AllPairs}
use r2_labs.Sdk.Value.{
  null, empty_list, empty_dict, empty_tuple, unset, not_finite, minus_infinite, flag, number,
  thousandths, minus, object, array, str, member, made, if_given, Value, DataClass, Keywords,
  Request, string_eq, has_field, all_known, first_value, cons_field, filled, construct,
}
use r2_labs.Sdk.ExecMode
use r2_labs.Sdk.RawRobot
use r2_labs.Sdk.Column
use r2_labs.Sdk.Query
use r2_labs.Sdk.Recording
use r2_labs.Sdk.VisualRecording
use r2_labs.Sdk.OnlineEpisodeForwarding
use r2_labs.Sdk.EpisodeObserver
use r2_labs.Sdk.CollectData
use r2_labs.Sdk.Dagger
use r2_labs.Sdk.Eval
use r2_labs.Sdk.Zeroing
use r2_labs.Sdk.HardwareHealth
use r2_labs.Sdk.ModelServices
use r2_labs.Sdk.Models
use r2_labs.Sdk.ObjectLibrary
use r2_labs.Sdk.TrajectoryLibrary
use r2_labs.Sdk.VisualPoseCapture
use r2_labs.Sdk.VisualPoseLibrary
use r2_labs.Sdk.VisualTrajectoryLibrary
use r2_labs.Sdk.AprilTag
use r2_labs.Sdk.Behaviour
use r2_labs.Sdk.Trainer
use r2_labs.Sdk.ProgressPredictionTrainer

unfoldable pub query_accepted : Option (DataClass × Keywords) → Bool
query_accepted none = true
query_accepted (some (c, kws)) = is_some (construct c kws)

unfoldable pub all_accepted : List Request → Bool
unfolding query_accepted
all_accepted [] = true
all_accepted (r ∷ rs) = query_accepted r.query && all_accepted rs

abbrev pub all_requests : (String → Value) → ℕ → Option ℕ → List Request
all_requests v n t =
    ExecMode.requests v n t
    ++ RawRobot.requests v n t
    ++ Column.requests v n t
    ++ Query.requests v n t
    ++ Recording.requests v n t
    ++ VisualRecording.requests v n t
    ++ OnlineEpisodeForwarding.requests v n t
    ++ EpisodeObserver.requests v n t
    ++ CollectData.requests v n t
    ++ Dagger.requests v n t
    ++ Eval.requests v n t
    ++ Zeroing.requests v n t
    ++ HardwareHealth.requests v n t
    ++ ModelServices.requests v n t
    ++ Models.requests v n t
    ++ ObjectLibrary.requests v n t
    ++ TrajectoryLibrary.requests v n t
    ++ VisualPoseCapture.requests v n t
    ++ VisualPoseLibrary.requests v n t
    ++ VisualTrajectoryLibrary.requests v n t
    ++ AprilTag.requests v n t
    ++ Behaviour.requests v n t
    ++ Trainer.requests v n t
    ++ ProgressPredictionTrainer.requests v n t

if_given-either :
    {A : Type 0} (P : A → Type 0) (x : Value) (a b : A) → P a → P b → P (if_given x a b)
if_given-either P null a b p q = q
if_given-either P empty_list a b p q = p
if_given-either P empty_dict a b p q = p
if_given-either P empty_tuple a b p q = p
if_given-either P unset a b p q = p
if_given-either P not_finite a b p q = p
if_given-either P minus_infinite a b p q = p
if_given-either P (flag f) a b p q = p
if_given-either P (number n) a b p q = p
if_given-either P (thousandths n) a b p q = p
if_given-either P (minus n) a b p q = p
if_given-either P (object n) a b p q = p
if_given-either P (array n) a b p q = p
if_given-either P (str s) a b p q = p
if_given-either P (member s) a b p q = p
if_given-either P (made s) a b p q = p

open_gripper-accepted :
    (x : Value) → query_accepted (Behaviour.initiate_open_gripper x).query ≡ true
unfolding query_accepted construct all_known has_field filled first_value cons_field lookup
open_gripper-accepted x =
    if_given-either (λ k. query_accepted (some (Behaviour.Queries.open_gripper_query, k)) ≡ true) x
      (("target_position", x) ∷ []) [] refl refl

close_gripper-accepted :
    (x : Value) → query_accepted (Behaviour.initiate_close_gripper x).query ≡ true
unfolding query_accepted construct all_known has_field filled first_value cons_field lookup
close_gripper-accepted x =
    if_given-either (λ k. query_accepted (some (Behaviour.Queries.close_gripper_query, k)) ≡ true) x
      (("target_position", x) ∷ []) [] refl refl

accepted : (v : String → Value) (n : ℕ) (t : Option ℕ) → all_accepted (all_requests v n t) ≡ true
unfolding all_accepted query_accepted construct all_known has_field filled first_value cons_field
    lookup
accepted v n t =
    rw (open_gripper-accepted (v "target_position"), close_gripper-accepted (v "target_position"))

-- A query's dataclass takes the keyword arguments that the wrapper gives it.
abbrev pub Takes : Option (DataClass × Keywords) → Type 0
Takes none = Unit
Takes (some (c, kws)) = (fields : Keywords) × (construct c kws ≡ some fields)

abbrev pub IsAccepted : Request → Type 0
IsAccepted r = Takes r.query

query_accepted-Takes : (q : Option (DataClass × Keywords)) → query_accepted q ≡ true → Takes q
unfolding query_accepted
query_accepted-Takes none h = tt
query_accepted-Takes (some (c, kws)) h = elim (Option-cases (construct c kws)) [
  | inl e ↦ ground (arith, h, e)
  | inr found ↦ found
]

all_accepted-IsAccepted : (rs : List Request) → all_accepted rs ≡ true → All IsAccepted rs
unfolding all_accepted
all_accepted-IsAccepted [] h = tt
all_accepted-IsAccepted (r ∷ rs) h = (
  query_accepted-Takes r.query (ground (arith, h)),
  all_accepted-IsAccepted rs (ground (arith, h)),
)

-- In every remote call of the clients whose query the SDK itself makes, whatever the method's arguments
-- are, the query's dataclass gets as keywords only fields that it has, and all that have no default.
pub requests-IsAccepted :
    (v : String → Value) (n : ℕ) (t : Option ℕ) → All IsAccepted (all_requests v n t)
requests-IsAccepted v n t = all_accepted-IsAccepted (all_requests v n t) (accepted v n t)

-- Two requests are of different remote functions, or expect one class of response.
abbrev pub SameResponse : Request → Request → Type 0
SameResponse r s = (r.fn_name ≢ s.fn_name) ⊎ (r.response ≡ s.response)

same_option : Option String → Option String → Bool
same_option none none = true
same_option (some a) (some b) = str_eq a b
same_option _ _ = false

agrees : Request → Request → Bool
unfolding same_option
agrees r s = if str_eq r.fn_name s.fn_name then same_option r.response s.response else true

all_agree : List Request → Bool
unfolding agrees
all_agree [] = true
all_agree (r ∷ rs) = all (agrees r) rs && all_agree rs

agree : (v : String → Value) (n : ℕ) (t : Option ℕ) → all_agree (all_requests v n t) ≡ true
unfolding all_agree agrees same_option
agree v n t = refl

same_option-eq : (a b : Option String) → same_option a b ≡ true → a ≡ b
unfolding same_option
same_option-eq none none h = refl
same_option-eq none (some b) h = cc
same_option-eq (some a) none h = cc
same_option-eq (some a) (some b) h = ap some ((eq_iff a b).0 h)

agrees-SameResponse : (r s : Request) → agrees r s ≡ true → SameResponse r s
unfolding agrees
agrees-SameResponse r s h = elim (Bool-cases (str_eq r.fn_name s.fn_name)) [
  | inl e ↦ inr (same_option-eq r.response s.response (ground (arith, h, e)))
  | inr e ↦ inl (λ same. ground (arith, e, (eq_iff r.fn_name s.fn_name).1 same))
]

each_agrees-SameResponse :
    (r : Request) (rs : List Request) → all (agrees r) rs ≡ true → All (SameResponse r) rs
each_agrees-SameResponse r [] h = tt
each_agrees-SameResponse r (s ∷ rs) h =
    (agrees-SameResponse r s (ground (arith, h)), each_agrees-SameResponse r rs (ground (arith, h)))

all_agree-SameResponse : (rs : List Request) → all_agree rs ≡ true → AllPairs SameResponse rs
unfolding all_agree
all_agree-SameResponse [] h = tt
all_agree-SameResponse (r ∷ rs) h = (
  each_agrees-SameResponse r rs (ground (arith, h)),
  all_agree-SameResponse rs (ground (arith, h)),
)

-- Whatever their arguments are, two wrappers that call one remote function expect one class of
-- response from it.
pub requests-SameResponse :
    (v : String → Value) (n : ℕ) (t : Option ℕ) → AllPairs SameResponse (all_requests v n t)
requests-SameResponse v n t = all_agree-SameResponse (all_requests v n t) (agree v n t)
