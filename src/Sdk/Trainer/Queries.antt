-- ===== src/Sdk/Trainer/Queries.antt =====
-- sdk/rpc_api.py: the queries of `TrainerClient`.
use r2_labs.Base.{[], ◌∷◌, false}
use r2_labs.Sdk.Value.{
  null, empty_list, empty_dict, flag, number, thousandths, minus, str, required, optional,
  DataClass,
}

abbrev pub cancel_training_query : DataClass
cancel_training_query = record { name = "CancelTrainingQuery"; fields = [] }

abbrev pub start_skill_training_query : DataClass
start_skill_training_query = record {
  name = "StartSkillTrainingQuery";
  fields =
      required "model_name"
      ∷ required "training_steps"
      ∷ optional "entry_filters" empty_list
      ∷ optional "entry_tags" empty_list
      ∷ optional "cameras" null
      ∷ optional "model_save_dir" (str "")
      ∷ optional "force_rebuild" (flag false)
      ∷ optional "use_zero_fallback_for_missing_cameras" (flag false)
      ∷ optional "batch_size" (number 64)
      ∷ optional "prediction_horizon" (number 32)
      ∷ optional "use_joint_torques" (flag false)
      ∷ optional "checkpoint_interval_steps" (number 1000)
      ∷ optional "max_checkpoints_to_keep" (number 10)
      ∷ optional "config_overrides" empty_dict
      ∷ optional "dataset_cache_key" (str "")
      ∷ optional "enable_random_crop" (flag false)
      ∷ optional "random_crop_cameras" empty_list
      ∷ optional "enable_advantage_weighting" (flag false)
      ∷ optional "value_function_model_id" (str "")
      ∷ optional "crr_type" (str "hard")
      ∷ optional "crr_negative_weight" (thousandths 100)
      ∷ optional "advantage_gae_lambda" (thousandths 950)
      ∷ optional "advantage_cutoff" (minus 20)
      ∷ optional "init_from_model_id" (str "")
      ∷ optional "external_task_id" (str "")
      ∷ optional "online_mode" (flag false)
      ∷ optional "online_dataset_dir" (str "")
      ∷ optional "online_model_dir" (str "")
      ∷ optional "snapshot_interval_steps" (number 1000)
      ∷ optional "collect_only" (flag false)
      ∷ optional "restart_online_learning" (flag false)
      ∷ optional "serve_online_learning_inference" (flag false)
      ∷ optional "online_learning_inference_gpu" null
      ∷ optional "online_learning_inference_port" null
      ∷ [];
}

abbrev pub list_entry_filters_query : DataClass
list_entry_filters_query = record {
  name = "ListEntryFiltersQuery";
  fields = optional "search" (str "") ∷ [];
}

abbrev pub start_export_query : DataClass
start_export_query = record {
  name = "StartExportQuery";
  fields =
      optional "checkpoint_step" null
      ∷ optional "model_name" null
      ∷ optional "entry_filters" null
      ∷ optional "entry_tags" empty_list
      ∷ optional "cameras" null
      ∷ optional "model_save_dir" null
      ∷ optional "prediction_horizon" null
      ∷ optional "use_joint_torques" null
      ∷ [];
}

abbrev pub start_current_export_query : DataClass
start_current_export_query = record {
  name = "StartCurrentExportQuery";
  fields = optional "checkpoint_step" null ∷ [];
}
