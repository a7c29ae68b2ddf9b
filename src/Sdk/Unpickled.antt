-- ===== src/Sdk/Unpickled.antt =====
-- An instance that an older sender pickled has the fields that its class lacked.
use Prim.Native.String.{String}
use package.text.Mathlib.Text.{◌==◌ as str_eq}
use package.text.Mathlib.TextEquality.{eq_iff}
use r2_labs.Base.{
  ◌≡◌, refl, ap, ◌∙◌, List, [], ◌∷◌, Option, none, some, if◌then◌else◌, is_some, All, arith,
  Option-cases, inl, inr,
}
use r2_labs.Base.Dict.{lookup, lookup-insert}
use r2_labs.Sdk.Value.{Value, Field, string_eq, DataClass, Keywords, first_value}
use r2_labs.Sdk.ObjectLibrary.Queries.{rename_object_query}
use r2_labs.Sdk.TrajectoryLibrary.{rename_trajectory_query}
use r2_labs.Sdk.VisualPoseLibrary.{rename_visual_pose_query}
use r2_labs.Sdk.VisualTrajectoryLibrary.Queries.{rename_visual_trajectory_query}
use r2_labs.Sdk.Behaviour.Queries.{visual_trajectory_motion_query}
use r2_labs.Sdk.Trainer.Queries.{start_skill_training_query}
use r2_labs.Sdk.Setstate.{
  execution_mode_query_response, start_skill_training_response, supply, supply_all,
  execution_mode_fields, rename_object_fields, rename_trajectory_fields, rename_visual_pose_fields,
  rename_visual_trajectory_fields, visual_trajectory_motion_fields, start_skill_training_fields,
  start_skill_training_response_fields,
}

lookup-supply :
    (k : String) (v : Value) (state : Keywords) (j : String)
    → lookup j (supply k v state)
      ≡ first_value (lookup j state) (if str_eq k j then some v else none)
unfolding supply first_value
lookup-supply k v state j = elim (Option-cases (lookup k state)) [
  | inl e ↦ ground (arith, e, eq_iff k j, lookup-insert k j v state)
  | inr (x, e) ↦ ground (arith, e, eq_iff k j)
]

lookup-supply_all :
    (ds state : Keywords) (j : String)
    → lookup j (supply_all ds state) ≡ first_value (lookup j state) (lookup j ds)
unfolding supply_all first_value lookup
lookup-supply_all [] state j = ground arith
lookup-supply_all ((k, v) ∷ ds) state j =
    ground (arith, lookup-supply_all ds (supply k v state) j, lookup-supply k v state j)

abbrev pub default_of : String → List Field → Option Value
default_of k [] = none
default_of k (f ∷ fs) = if str_eq f.name k then f.default else default_of k fs

-- A class, and what its `__setstate__` supplies.
abbrev pub versioned : List (DataClass × Keywords)
versioned =
    (execution_mode_query_response, execution_mode_fields)
    ∷ (rename_object_query, rename_object_fields)
    ∷ (rename_trajectory_query, rename_trajectory_fields)
    ∷ (rename_visual_pose_query, rename_visual_pose_fields)
    ∷ (rename_visual_trajectory_query, rename_visual_trajectory_fields)
    ∷ (visual_trajectory_motion_query, visual_trajectory_motion_fields)
    ∷ (start_skill_training_query, start_skill_training_fields)
    ∷ (start_skill_training_response, start_skill_training_response_fields)
    ∷ []

-- The instance has each field that its class's `__setstate__` supplies: the sender's value, or the
-- dataclass's default; and of the other fields what the sender gave.
abbrev pub IsRestored : DataClass × Keywords → Type 0
IsRestored (c, ds) =
    (state : Keywords) (k : String)
    → lookup k (supply_all ds state)
      ≡ first_value (lookup k state) (if is_some (lookup k ds) then default_of k c.fields else none)

lookup-default_of :
    (fs : List Field) (ds : Keywords) (k : String)
    → All (λ d. default_of d.0 fs ≡ some d.1) ds
    → lookup k ds ≡ (if is_some (lookup k ds) then default_of k fs else none)
unfolding lookup
lookup-default_of fs [] k h = refl
lookup-default_of fs ((j, v) ∷ ds) k (h, hs) =
    ground (arith, eq_iff j k, h, lookup-default_of fs ds k hs)

restored :
    (c : DataClass) (ds : Keywords)
    → All (λ d. default_of d.0 c.fields ≡ some d.1) ds
    → IsRestored (c, ds)
restored c ds h state k =
    lookup-supply_all ds state k
    ∙ ap (first_value (lookup k state)) (lookup-default_of c.fields ds k h)

-- In each of eight classes the fields that unpickling supplies are those that the sender's state
-- lacks, each with the default that the dataclass's constructor gives it; whatever the sender gave
-- is kept, a falsy value too.
pub versioned-IsRestored : All IsRestored versioned
versioned-IsRestored = (
  restored execution_mode_query_response execution_mode_fields (refl, (refl, tt)),
  (
    restored rename_object_query rename_object_fields (refl, tt),
    (
      restored rename_trajectory_query rename_trajectory_fields (refl, tt),
      (
        restored rename_visual_pose_query rename_visual_pose_fields (refl, tt),
        (
          restored rename_visual_trajectory_query rename_visual_trajectory_fields (refl, tt),
          (
            restored visual_trajectory_motion_query visual_trajectory_motion_fields
                (refl, (refl, tt)),
            (
              restored start_skill_training_query start_skill_training_fields
                  (refl, (refl, (refl, (refl, tt)))),
              (
                restored start_skill_training_response start_skill_training_response_fields
                    (refl, (refl, tt)),
                tt,
              ),
            ),
          ),
        ),
      ),
    ),
  ),
)
