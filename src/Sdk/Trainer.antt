-- ===== src/Sdk/Trainer.antt =====
-- sdk/client.py: the wrappers of `TrainerClient`.
pub mod Queries
use Prim.Native.String.{String}
use r2_labs.Base.{true, false, List, [], ◌∷◌, Option, none, some, ℕ, true, false}
use r2_labs.Sdk.Value.{
  DataClass, Request, Value, as_list, cancel_timeout, empty_dict, empty_list, flag, if_given, null,
  number, optional, or_else, required, str, unset,
}
use r2_labs.Sdk.Trainer.Queries.{
  cancel_training_query, list_entry_filters_query, start_current_export_query, start_export_query,
  start_skill_training_query,
}

abbrev pub get_training_status : Request
get_training_status = record {
  fn_name = "trainer.get_training_status";
  query = none;
  deadline = none;
  response = some "TrainingStatusResponse";
}

abbrev pub cancel_training : Request
cancel_training = record {
  fn_name = "trainer.cancel_training";
  query = some (cancel_training_query, []);
  deadline = some cancel_timeout;
  response = some "CancelTrainingResponse";
}

abbrev pub start_online_training :
    Value
    → Value
    → Value
    → Value
    → Value
    → Value
    → Value
    → Value
    → Value
    → Value
    → Value
    → Value
    → Value
    → Value
    → Value
    → Value
    → Option ℕ
    → Value
    → Request
start_online_training model_name training_steps online_dataset_dir online_model_dir
      init_from_model_id snapshot_interval_steps cameras batch_size prediction_horizon
      use_joint_torques use_zero_fallback_for_missing_cameras checkpoint_interval_steps
      max_checkpoints_to_keep config_overrides collect_only external_task_id timeout
      restart_online_learning =
    record {
      fn_name = "trainer.start_online_training";
      query = some (
        start_skill_training_query,
        ("model_name", model_name)
            ∷ ("training_steps", training_steps)
            ∷ ("online_mode", flag true)
            ∷ ("online_dataset_dir", online_dataset_dir)
            ∷ ("online_model_dir", online_model_dir)
            ∷ ("init_from_model_id", init_from_model_id)
            ∷ ("snapshot_interval_steps", snapshot_interval_steps)
            ∷ ("cameras", cameras)
            ∷ ("batch_size", batch_size)
            ∷ ("prediction_horizon", prediction_horizon)
            ∷ ("use_joint_torques", use_joint_torques)
            ∷ ("use_zero_fallback_for_missing_cameras", use_zero_fallback_for_missing_cameras)
            ∷ ("checkpoint_interval_steps", checkpoint_interval_steps)
            ∷ ("max_checkpoints_to_keep", max_checkpoints_to_keep)
            ∷ ("config_overrides", or_else config_overrides empty_dict)
            ∷ ("collect_only", collect_only)
            ∷ ("external_task_id", external_task_id)
            ∷ ("restart_online_learning", restart_online_learning)
            ∷ [],
      );
      deadline = timeout;
      response = some "StartSkillTrainingResponse";
    }

abbrev pub start_online_learning :
    Value
    → Value
    → Value
    → Value
    → Value
    → Value
    → Value
    → Value
    → Value
    → Value
    → Value
    → Value
    → Value
    → Value
    → Value
    → Value
    → Value
    → Value
    → Option ℕ
    → Request
start_online_learning init_from_model_id inference_gpu inference_port serve_inference training_steps
      snapshot_interval_steps checkpoint_interval_steps max_checkpoints_to_keep cameras batch_size
      prediction_horizon use_joint_torques use_zero_fallback_for_missing_cameras config_overrides
      collect_only restart_online_learning external_task_id model_name timeout =
    record {
      fn_name = "trainer.start_online_learning";
      query = some (
        start_skill_training_query,
        ("model_name", model_name)
            ∷ ("training_steps", training_steps)
            ∷ ("online_mode", flag true)
            ∷ ("online_dataset_dir", str "")
            ∷ ("online_model_dir", str "")
            ∷ ("init_from_model_id", init_from_model_id)
            ∷ ("snapshot_interval_steps", snapshot_interval_steps)
            ∷ ("cameras", cameras)
            ∷ ("batch_size", batch_size)
            ∷ ("prediction_horizon", prediction_horizon)
            ∷ ("use_joint_torques", use_joint_torques)
            ∷ ("use_zero_fallback_for_missing_cameras", use_zero_fallback_for_missing_cameras)
            ∷ ("checkpoint_interval_steps", checkpoint_interval_steps)
            ∷ ("max_checkpoints_to_keep", max_checkpoints_to_keep)
            ∷ ("config_overrides", or_else config_overrides empty_dict)
            ∷ ("collect_only", collect_only)
            ∷ ("external_task_id", external_task_id)
            ∷ ("restart_online_learning", restart_online_learning)
            ∷ ("serve_online_learning_inference", serve_inference)
            ∷ ("online_learning_inference_gpu", inference_gpu)
            ∷ ("online_learning_inference_port", inference_port)
            ∷ [],
      );
      deadline = timeout;
      response = some "StartSkillTrainingResponse";
    }

abbrev pub get_online_training_status : Request
get_online_training_status = record {
  fn_name = "trainer.get_online_training_status";
  query = none;
  deadline = none;
  response = some "TrainingStatusResponse";
}

abbrev pub get_online_learning_status : Request
get_online_learning_status = record {
  fn_name = "trainer.get_online_learning_status";
  query = none;
  deadline = none;
  response = some "TrainingStatusResponse";
}

abbrev pub cancel_online_training : Request
cancel_online_training = record {
  fn_name = "trainer.cancel_online_training";
  query = some (cancel_training_query, []);
  deadline = some cancel_timeout;
  response = some "CancelTrainingResponse";
}

abbrev pub cancel_online_learning : Request
cancel_online_learning = record {
  fn_name = "trainer.cancel_online_learning";
  query = some (cancel_training_query, []);
  deadline = some cancel_timeout;
  response = some "CancelTrainingResponse";
}

abbrev pub reset_trainer : Request
reset_trainer = record {
  fn_name = "trainer.reset_trainer";
  query = none;
  deadline = some cancel_timeout;
  response = some "ResetTrainerResponse";
}

abbrev pub list_models : Request
list_models = record {
  fn_name = "trainer.list_models";
  query = none;
  deadline = none;
  response = some "list";
}

abbrev pub list_model_names_from_checkpoints : Request
list_model_names_from_checkpoints = record {
  fn_name = "trainer.list_model_names_from_checkpoints";
  query = none;
  deadline = none;
  response = some "list";
}

abbrev pub list_entry_filters : Value → Request
list_entry_filters search = record {
  fn_name = "trainer.list_entry_filters";
  query = some (list_entry_filters_query, ("search", search) ∷ []);
  deadline = none;
  response = some "ListEntryFiltersResponse";
}

abbrev pub start_export : Value → Value → Value → Value → Value → Value → Value → Value → Request
start_export checkpoint_step model_name entry_filters entry_tags cameras model_save_dir
      prediction_horizon use_joint_torques =
    record {
      fn_name = "trainer.start_export";
      query = some (
        start_export_query,
        ("checkpoint_step", checkpoint_step)
            ∷ ("model_name", model_name)
            ∷ ("entry_filters", or_else entry_filters empty_list)
            ∷ ("entry_tags", or_else entry_tags empty_list)
            ∷ ("cameras", cameras)
            ∷ ("model_save_dir", model_save_dir)
            ∷ ("prediction_horizon", prediction_horizon)
            ∷ ("use_joint_torques", use_joint_torques)
            ∷ [],
      );
      deadline = none;
      response = some "StartExportResponse";
    }

abbrev pub start_current_export : Value → Request
start_current_export checkpoint_step = record {
  fn_name = "trainer.start_current_export";
  query = some (start_current_export_query, ("checkpoint_step", checkpoint_step) ∷ []);
  deadline = none;
  response = some "StartExportResponse";
}

abbrev pub get_export_status : Request
get_export_status = record {
  fn_name = "trainer.get_export_status";
  query = none;
  deadline = none;
  response = some "ExportStatusResponse";
}

abbrev pub list_checkpoints : Request
list_checkpoints = record {
  fn_name = "trainer.list_checkpoints";
  query = none;
  deadline = none;
  response = some "ListCheckpointsResponse";
}

abbrev pub start_offline_skill_training_query : DataClass
start_offline_skill_training_query = record {
  name = "StartOfflineSkillTrainingQuery";
  fields = required "model_family" ∷ required "training" ∷ [];
}

-- The request of `train_skill_model` for its default model family, once its tests have passed.
abbrev pub train_skill_model :
    Value
    → Value
    → Value
    → Value
    → Value
    → Value
    → Value
    → Value
    → Value
    → Value
    → Value
    → Value
    → Value
    → Value
    → Value
    → Value
    → Option ℕ
    → Request
train_skill_model model_name training_steps entry_filters entry_tags cameras model_save_dir
      force_rebuild use_zero_fallback_for_missing_cameras batch_size prediction_horizon
      use_joint_torques checkpoint_interval_steps max_checkpoints_to_keep enable_random_crop
      random_crop_cameras config_overrides timeout =
    record {
      fn_name = "trainer.train_skill_model";
      query = some (
        start_skill_training_query,
        ("model_name", model_name)
            ∷ ("training_steps", training_steps)
            ∷ ("entry_filters", entry_filters)
            ∷ ("entry_tags", or_else entry_tags empty_list)
            ∷ ("cameras", cameras)
            ∷ ("model_save_dir", model_save_dir)
            ∷ ("force_rebuild", force_rebuild)
            ∷ ("use_zero_fallback_for_missing_cameras", use_zero_fallback_for_missing_cameras)
            ∷ ("batch_size", batch_size)
            ∷ ("prediction_horizon", prediction_horizon)
            ∷ ("use_joint_torques", use_joint_torques)
            ∷ ("checkpoint_interval_steps", checkpoint_interval_steps)
            ∷ ("max_checkpoints_to_keep", max_checkpoints_to_keep)
            ∷ ("enable_random_crop", enable_random_crop)
            ∷ ("random_crop_cameras", as_list (or_else random_crop_cameras empty_list))
            ∷ ("config_overrides", or_else config_overrides empty_dict)
            ∷ [],
      );
      deadline = timeout;
      response = some "StartSkillTrainingResponse";
    }

-- The same for another model family; `training` is the instance that the default family sends.
abbrev pub train_skill_model_of_family : Value → Value → Option ℕ → Request
train_skill_model_of_family model_family training timeout = record {
  fn_name = "trainer.train_skill_model";
  query = some (
    start_offline_skill_training_query,
    ("model_family", model_family) ∷ ("training", training) ∷ [],
  );
  deadline = timeout;
  response = some "StartSkillTrainingResponse";
}

-- Every request of these wrappers, for any arguments.
abbrev pub requests : (String → Value) → ℕ → Option ℕ → List Request
requests v n t =
    get_training_status
    ∷ cancel_training
    ∷ start_online_training (v "model_name") (v "training_steps") (v "online_dataset_dir")
        (v "online_model_dir") (v "init_from_model_id") (v "snapshot_interval_steps") (v "cameras")
        (v "batch_size") (v "prediction_horizon") (v "use_joint_torques")
        (v "use_zero_fallback_for_missing_cameras") (v "checkpoint_interval_steps")
        (v "max_checkpoints_to_keep") (v "config_overrides") (v "collect_only")
        (v "external_task_id") t (v "restart_online_learning")
    ∷ start_online_learning (v "init_from_model_id") (v "inference_gpu") (v "inference_port")
        (v "serve_inference") (v "training_steps") (v "snapshot_interval_steps")
        (v "checkpoint_interval_steps") (v "max_checkpoints_to_keep") (v "cameras") (v "batch_size")
        (v "prediction_horizon") (v "use_joint_torques") (v "use_zero_fallback_for_missing_cameras")
        (v "config_overrides") (v "collect_only") (v "restart_online_learning")
        (v "external_task_id") (v "model_name") t
    ∷ get_online_training_status
    ∷ get_online_learning_status
    ∷ cancel_online_training
    ∷ cancel_online_learning
    ∷ reset_trainer
    ∷ list_models
    ∷ list_model_names_from_checkpoints
    ∷ list_entry_filters (v "search")
    ∷ start_export (v "checkpoint_step") (v "model_name") (v "entry_filters") (v "entry_tags")
        (v "cameras") (v "model_save_dir") (v "prediction_horizon") (v "use_joint_torques")
    ∷ start_current_export (v "checkpoint_step")
    ∷ get_export_status
    ∷ list_checkpoints
    ∷ train_skill_model (v "model_name") (v "training_steps") (v "entry_filters") (v "entry_tags")
        (v "cameras") (v "model_save_dir") (v "force_rebuild")
        (v "use_zero_fallback_for_missing_cameras") (v "batch_size") (v "prediction_horizon")
        (v "use_joint_torques") (v "checkpoint_interval_steps") (v "max_checkpoints_to_keep")
        (v "enable_random_crop") (v "random_crop_cameras") (v "config_overrides") t
    ∷ train_skill_model_of_family (v "model_family") (v "training") t
    ∷ []
