-- ===== src/Sdk/ProgressPredictionTrainer.antt =====
-- sdk/client.py: the wrappers of `ProgressPredictionTrainerClient`, with their queries of sdk/rpc_api.py.
use Prim.Native.String.{String}
use r2_labs.Base.{false, List, [], ◌∷◌, Option, none, some, ℕ}
use r2_labs.Sdk.Value.{DataClass, Request, Value, flag, null, number, optional, required, str}
use r2_labs.Sdk.Trainer.Queries.{start_export_query}

abbrev pub cancel_progress_training_query : DataClass
cancel_progress_training_query = record { name = "CancelProgressTrainingQuery"; fields = [] }

abbrev pub get_training_status : Request
get_training_status = record {
  fn_name = "trainer.get_progress_training_status";
  query = none;
  deadline = none;
  response = some "ProgressTrainingStatusResponse";
}

abbrev pub cancel_training : Request
cancel_training = record {
  fn_name = "trainer.cancel_progress_training";
  query = some (cancel_progress_training_query, []);
  deadline = none;
  response = some "CancelProgressTrainingResponse";
}

abbrev pub reset_trainer : Request
reset_trainer = record {
  fn_name = "trainer.reset_progress_trainer";
  query = none;
  deadline = none;
  response = some "ResetTrainerResponse";
}

abbrev pub start_export : Value → Request
start_export checkpoint_step = record {
  fn_name = "trainer.start_progress_export";
  query = some (start_export_query, ("checkpoint_step", checkpoint_step) ∷ []);
  deadline = none;
  response = some "StartExportResponse";
}

abbrev pub get_export_status : Request
get_export_status = record {
  fn_name = "trainer.get_progress_export_status";
  query = none;
  deadline = none;
  response = some "ExportStatusResponse";
}

abbrev pub list_checkpoints : Request
list_checkpoints = record {
  fn_name = "trainer.list_progress_checkpoints";
  query = none;
  deadline = none;
  response = some "ListCheckpointsResponse";
}

abbrev pub start_progress_training_query : DataClass
start_progress_training_query = record {
  name = "StartProgressTrainingQuery";
  fields =
      required "model_name"
      ∷ required "training_steps"
      ∷ optional "entry_filters" null
      ∷ optional "human_entry_filters" null
      ∷ optional "force_rebuild" (flag false)
      ∷ optional "batch_size" (number 32)
      ∷ optional "task_type" (str "classification")
      ∷ optional "cameras" null
      ∷ optional "resume_from" null
      ∷ optional "checkpoint_interval_steps" (number 1000)
      ∷ optional "max_checkpoints_to_keep" (number 10)
      ∷ [];
}

-- The request of `train_model`, once its tests have passed.
abbrev pub train_model :
    Value → Value → Value → Value → Value → Value → Value → Value → Value → Value → Value → Request
train_model model_name training_steps entry_filters human_entry_filters force_rebuild batch_size
      task_type cameras resume_from checkpoint_interval_steps max_checkpoints_to_keep =
    record {
      fn_name = "trainer.train_progress_model";
      query = some (
        start_progress_training_query,
        ("model_name", model_name)
            ∷ ("training_steps", training_steps)
            ∷ ("entry_filters", entry_filters)
            ∷ ("human_entry_filters", human_entry_filters)
            ∷ ("force_rebuild", force_rebuild)
            ∷ ("batch_size", batch_size)
            ∷ ("task_type", task_type)
            ∷ ("cameras", cameras)
            ∷ ("resume_from", resume_from)
            ∷ ("checkpoint_interval_steps", checkpoint_interval_steps)
            ∷ ("max_checkpoints_to_keep", max_checkpoints_to_keep)
            ∷ [],
      );
      deadline = none;
      response = some "StartProgressTrainingResponse";
    }

-- Every request of these wrappers, for any arguments.
abbrev pub requests : (String → Value) → ℕ → Option ℕ → List Request
requests v n t =
    get_training_status
    ∷ cancel_training
    ∷ reset_trainer
    ∷ start_export (v "checkpoint_step")
    ∷ get_export_status
    ∷ list_checkpoints
    ∷ train_model (v "model_name") (v "training_steps") (v "entry_filters")
        (v "human_entry_filters") (v "force_rebuild") (v "batch_size") (v "task_type") (v "cameras")
        (v "resume_from") (v "checkpoint_interval_steps") (v "max_checkpoints_to_keep")
    ∷ []
