-- ===== src/Sdk/Value.antt =====
-- What a wrapper of sdk/client.py sends: the keyword arguments that it gives a dataclass of
-- sdk/rpc_api.py, the remote function's name, the deadline and the response's class. Times are in
-- milliseconds.
use Prim.Native.String.{String}
use package.text.Mathlib.Text.{◌==◌ as str_eq}
use package.text.Mathlib.TextEquality.{eq_iff}
use r2_labs.Base.{
  ℕ, ◌+◌, ◌*◌, leb, Bool, true, false, ◌&&◌, List, [], ◌∷◌, Option, none, some, if◌then◌else◌,
}
use r2_labs.Base.Dict.{Eq, lookup}

instance abbrev pub string_eq : Eq String
string_eq = record { beq = str_eq; beq_iff = eq_iff }

-- A Python value: of a float its thousandths, or that it is infinite or no number (`not_finite`) or
-- minus infinite, of an enumeration's member its name, of a call of a factory its text. Any other
-- object, a sequence or an array that a caller gives for one, is known by its number.
pub data Value : Type 0 where
  null empty_list empty_dict empty_tuple unset not_finite minus_infinite : Value
  flag : Bool → Value
  number thousandths minus object : ℕ → Value
  str member made : String → Value
  array : ℕ → Value

-- `a or b` where an argument may be None or empty.
abbrev pub or_else : Value → Value → Value
or_else null b = b
or_else empty_list b = b
or_else empty_dict b = b
or_else (str t) b = if str_eq t "" then b else str t
or_else a b = a

-- `a if x is not None else b`
abbrev pub if_given {ℓ} : {A : Type ℓ} → Value → A → A → A
if_given null a b = b
if_given x a b = a

-- `list(x)` copies a sequence, whose items stay.
abbrev pub as_list : Value → Value
as_list empty_tuple = empty_list
as_list x = x

-- `np.array(x)` of a sequence or of an array.
abbrev pub as_array : Value → Value
as_array (object n) = array n
as_array x = x

pub record Field : Type 0 where
  pub name : String
  pub default : Option Value

abbrev pub required : String → Field
required name = record { name = name; default = none }

abbrev pub optional : String → Value → Field
optional name v = record { name = name; default = some v }

pub record DataClass : Type 0 where
  pub name : String
  pub fields : List Field

abbrev pub Keywords : Type 0
Keywords = List (String × Value)

unfoldable pub has_field : String → List Field → Bool
has_field k [] = false
has_field k (f ∷ fs) = if str_eq f.name k then true else has_field k fs

unfoldable pub all_known : Keywords → List Field → Bool
unfolding has_field
all_known [] fs = true
all_known ((k, v) ∷ kws) fs = has_field k fs && all_known kws fs

unfoldable pub first_value : Option Value → Option Value → Option Value
first_value none d = d
first_value (some v) d = some v

unfoldable pub cons_field : String → Option Value → Option Keywords → Option Keywords
cons_field k none rest = none
cons_field k (some v) none = none
cons_field k (some v) (some rest) = some ((k, v) ∷ rest)

-- The instance's fields; none is the TypeError for a field that is neither given nor has a default.
unfoldable pub filled : List Field → Keywords → Option Keywords
unfolding first_value cons_field
filled [] kws = some []
filled (f ∷ fs) kws = cons_field f.name (first_value (lookup f.name kws) f.default) (filled fs kws)

-- A dataclass's generated `__init__`: it refuses a keyword that is no field.
unfoldable pub construct : DataClass → Keywords → Option Keywords
unfolding all_known filled
construct c kws = if all_known kws c.fields then filled c.fields kws else none

-- `isfinite(x)` and `x >= n / 1000` of a number; anything else raises a TypeError there.
unfoldable pub at_least : ℕ → Value → Bool
at_least n (number k) = leb n (k * 1000)
at_least n (thousandths k) = leb n k
at_least n (flag true) = leb n 1000
at_least n _ = false

-- The value of a field of an instance.
unfoldable pub value_of : String → Keywords → Value
value_of k fields = elim (lookup k fields) [ none ↦ null | some v ↦ v ]

-- `x is None or not x <= 0`, which an infinity and no number pass.
unfoldable pub given_positive : Value → Bool
unfolding at_least
given_positive null = true
given_positive not_finite = true
given_positive v = at_least 1 v

-- `TrajectoryMotionQuery.__post_init__`; false is its ValueError, or the TypeError of a comparison.
unfoldable pub trajectory_motion_post_init : Keywords → Bool
unfolding value_of at_least given_positive
trajectory_motion_post_init fields =
    at_least 1 (value_of "speed" fields)
    && given_positive (value_of "go_to_duration" fields)
    && at_least 1000 (value_of "allowance_factor" fields)

-- `VisualTrajectoryMotionQuery.__post_init__`
unfoldable pub visual_trajectory_motion_post_init : Keywords → Bool
unfolding value_of at_least given_positive
visual_trajectory_motion_post_init fields =
    at_least 1 (value_of "speed" fields)
    && given_positive (value_of "max_consecutive_missed_matches" fields)

-- The other queries have no `__post_init__`.
unfoldable pub post_init : String → Keywords → Bool
unfolding trajectory_motion_post_init visual_trajectory_motion_post_init
post_init class_name fields =
    if str_eq class_name "TrajectoryMotionQuery"
    then trajectory_motion_post_init fields
    else if str_eq class_name "VisualTrajectoryMotionQuery"
    then visual_trajectory_motion_post_init fields
    else true

unfoldable pub checked : String → Option Keywords → Option Keywords
unfolding post_init
checked class_name none = none
checked class_name (some fields) = if post_init class_name fields then some fields else none

-- A query's instance, with its `__post_init__`; none is the TypeError or the ValueError.
unfoldable pub make_query : DataClass → Keywords → Option Keywords
unfolding construct checked
make_query c kws = checked c.name (construct c kws)

pub record Request : Type 0 where
  pub fn_name : String
  pub query : Option (DataClass × Keywords)
  pub deadline : Option ℕ
  pub response : Option String

-- `_with_buffer`, in milliseconds.
abbrev pub with_buffer : ℕ → ℕ
with_buffer timeout = timeout + 1000

-- TrainerClient._CANCEL_TIMEOUT_MS
abbrev pub cancel_timeout : ℕ
cancel_timeout = 90000
