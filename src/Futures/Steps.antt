-- ===== src/Futures/Steps.antt =====
-- The interleavings of the arm-aware executor: callers that submit, cancel and shut down, the
-- scheduler thread, and the worker of each pool.
use r2_labs.Base.{◌≡◌, ℕ, suc, some, Bool, List, ◌∷◌}
use r2_labs.Futures.State.{
  ArmSelection, result, raised, QueuedTask, Job, queued, started, awake, holding, ArmExecutor,
  executor_for,
}
use r2_labs.Futures.{
  pass_test, enqueue, cancel, shutdown, shutdown_pools, run_scheduler, dispatch, begin_task,
  end_task,
}

abbrev pub queued_job : QueuedTask → Job
queued_job t = record { task = t; stage = queued }

abbrev pub started_job : QueuedTask → Job
started_job t = record { task = t; stage = started }

pub data Step {A : Type 0} (e e' : ArmExecutor A) : Type 0 where
  tests : pass_test e ≡ some e' → Step e e'
  submits :
      (others : ℕ) (arm : ArmSelection) (cb : Bool)
      → e.submitting ≡ suc others
      → e' ≡ enqueue e others arm cb
      → Step e e'
  cancels : (t : QueuedTask) → e' ≡ cancel e t → Step e e'
  shuts_down : (cancel_futures : Bool) → e' ≡ shutdown e cancel_futures → Step e e'
  closes_pools : (cancel_futures : Bool) → e' ≡ shutdown_pools e cancel_futures → Step e e'
  schedules : e.scheduler ≡ awake → e' ≡ run_scheduler e → Step e e'
  dispatches : (t : QueuedTask) → e.scheduler ≡ holding t → e' ≡ dispatch e t → Step e e'
  begins :
      (pool : ArmSelection) (t : QueuedTask) (rest : List Job)
      → executor_for e pool ≡ queued_job t ∷ rest
      → e' ≡ begin_task e pool t rest
      → Step e e'
  returns :
      (pool : ArmSelection) (t : QueuedTask) (rest : List Job) (a : A)
      → executor_for e pool ≡ started_job t ∷ rest
      → e' ≡ end_task e pool t rest (result a)
      → Step e e'
  raises :
      (pool : ArmSelection) (t : QueuedTask) (rest : List Job)
      → executor_for e pool ≡ started_job t ∷ rest
      → e' ≡ end_task e pool t rest raised
      → Step e e'

pub data Reach {A : Type 0} (s : ArmExecutor A) : ArmExecutor A → Type 0 where
  here : Reach s s
  next : {e e' : ArmExecutor A} → Reach s e → Step e e' → Reach s e'
