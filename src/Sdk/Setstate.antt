-- ===== src/Sdk/Setstate.antt =====
-- sdk/rpc_api.py: the `__setstate__` methods, which unpickling calls with the fields that the
-- sender's class had.
use Prim.Native.String.{String}
use r2_labs.Base.{Bool, false, [], ◌∷◌, Option, none, some, if◌then◌else◌, is_some}
use r2_labs.Base.Dict.{lookup, insert}
use r2_labs.Sdk.Value.{
  Value, null, flag, str, made, number, thousandths, required, optional, string_eq, DataClass,
  Keywords,
}

abbrev pub execution_mode_query_response : DataClass
execution_mode_query_response = record {
  name = "ExecutionModeQueryResponse";
  fields =
      required "current_mode"
      ∷ optional "available_modes" (made "list(ExecutionMode)")
      ∷ optional "arms_stopping" (flag false)
      ∷ [];
}

abbrev pub start_skill_training_response : DataClass
start_skill_training_response = record {
  name = "StartSkillTrainingResponse";
  fields =
      optional "error" null
      ∷ optional "online_learning_inference_address" null
      ∷ optional "online_learning_model_name" null
      ∷ [];
}

abbrev pub training_status_response : DataClass
training_status_response = record {
  name = "TrainingStatusResponse";
  fields =
      required "is_finished"
      ∷ required "steps_completed"
      ∷ required "max_steps"
      ∷ required "loss"
      ∷ required "fps"
      ∷ required "seconds_per_step"
      ∷ optional "metrics" null
      ∷ optional "phase" (str "idle")
      ∷ optional "export_entries_processed" (number 0)
      ∷ optional "export_entries_total" (number 0)
      ∷ optional "model_name" null
      ∷ optional "entry_filters" null
      ∷ optional "batch_size" null
      ∷ optional "prediction_horizon" null
      ∷ optional "online_mode" (flag false)
      ∷ optional "error" null
      ∷ optional "model_family" null
      ∷ optional "training_mode" null
      ∷ optional "model_id" null
      ∷ optional "base_model_id" (str "")
      ∷ [];
}

-- `if k not in state: self.k = v`
unfoldable pub supply : String → Value → Keywords → Keywords
supply k v state = if is_some (lookup k state) then state else insert k v state

unfoldable pub supply_all : Keywords → Keywords → Keywords
unfolding supply
supply_all [] state = state
supply_all ((k, v) ∷ ds) state = supply_all ds (supply k v state)

-- What each class's method supplies.
abbrev pub execution_mode_fields : Keywords
execution_mode_fields =
    ("available_modes", made "list(ExecutionMode)") ∷ ("arms_stopping", flag false) ∷ []

abbrev pub rename_object_fields : Keywords
rename_object_fields = ("allow_overwrite", flag false) ∷ []

abbrev pub rename_trajectory_fields : Keywords
rename_trajectory_fields = ("allow_overwrite", flag false) ∷ []

abbrev pub rename_visual_pose_fields : Keywords
rename_visual_pose_fields = ("allow_overwrite", flag false) ∷ []

abbrev pub rename_visual_trajectory_fields : Keywords
rename_visual_trajectory_fields = ("allow_overwrite", flag false) ∷ []

abbrev pub visual_trajectory_motion_fields : Keywords
visual_trajectory_motion_fields =
    ("speed", thousandths 1000) ∷ ("max_consecutive_missed_matches", null) ∷ []

abbrev pub start_skill_training_fields : Keywords
start_skill_training_fields =
    ("restart_online_learning", flag false)
    ∷ ("serve_online_learning_inference", flag false)
    ∷ ("online_learning_inference_gpu", null)
    ∷ ("online_learning_inference_port", null)
    ∷ []

abbrev pub start_skill_training_response_fields : Keywords
start_skill_training_response_fields =
    ("online_learning_inference_address", null) ∷ ("online_learning_model_name", null) ∷ []

-- The truth of an attribute that is a flag, or None.
unfoldable pub is_true : Option Value → Bool
is_true none = false
is_true (some (flag b)) = b
is_true (some v) = false

unfoldable pub training_mode_of : Keywords → Value
unfolding is_true
training_mode_of state = if is_true (lookup "online_mode" state) then str "online" else null

-- `TrainingStatusResponse.__setstate__`, which reads a field that it may have supplied itself.
unfoldable pub training_status_setstate : Keywords → Keywords
unfolding supply supply_all training_mode_of
training_status_setstate state =
    let early =
      supply_all (("online_mode", flag false) ∷ ("error", null) ∷ ("model_family", null) ∷ [])
        state in
    supply_all (("model_id", null) ∷ ("base_model_id", str "") ∷ [])
      (supply "training_mode" (training_mode_of early) early)
