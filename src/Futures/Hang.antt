-- ===== src/Futures/Hang.antt =====
-- Two ways in which `shutdown` leaves the scheduler thread for good.
use r2_labs.Base.{◌≡◌, ◌≢◌, refl, true, false, List, [], ◌∷◌, none, arith, All}
use r2_labs.Futures.State.{
  ArmSelection, left, right, both, QueuedTask, Job, waiting, holding, died, ArmExecutor, can_run,
  mark_busy, release, is_cancelled, executor_for, set_pool, drop_queued,
}
use r2_labs.Futures.{
  scan, pop_next_runnable, pass_test, enqueue, cancel, cancel_each, shutdown, shutdown_pools,
  take_next, schedule, run_scheduler, dispatch, begin_task, end_task,
}
use r2_labs.Futures.Steps.{
  Step, tests, submits, cancels, shuts_down, closes_pools, schedules, dispatches, begins, returns,
  raises, queued_job, started_job, Reach, here, next,
}
use r2_labs.Futures.Exclusion.{IsOwned, Step-IsOwned}

module _ {A : Type 0} where
  -- The scheduler is parked after `shutdown`, with nothing queued, nothing in a pool, and no caller
  -- past the test of `submit_for_arm`.
  pub record IsParked (e : ArmExecutor A) : Type 0 where
    pub parked : e.scheduler ≡ waiting
    pub no_callers : e.submitting ≡ 0
    pub flagged : e.shutdown_flag ≡ true
    pub no_tasks : e.tasks ≡ []
    pub no_left : e.left_pool ≡ []
    pub no_right : e.right_pool ≡ []
    pub no_bimanual : e.bimanual_pool ≡ []

  abbrev pub IsCancelled : ArmExecutor A → QueuedTask → Type 0
  IsCancelled e t = is_cancelled (e.futures t.future) ≡ true

  scan-cancelled :
      (e : ArmExecutor A) (ts : List QueuedTask) → All (IsCancelled e) ts → scan e ts ≡ (none, [])
  unfolding scan
  scan-cancelled e [] h = refl
  scan-cancelled e (t ∷ ts) h = rw h.0 (scan-cancelled e ts h.1)

  run_scheduler-IsParked :
      (e : ArmExecutor A) (t : QueuedTask) (ts : List QueuedTask)
      → e.tasks ≡ t ∷ ts
      → All (IsCancelled e) e.tasks
      → e.shutdown_flag ≡ true
      → e.submitting ≡ 0
      → e.left_pool ≡ []
      → e.right_pool ≡ []
      → e.bimanual_pool ≡ []
      → IsParked (run_scheduler e)
  unfolding run_scheduler schedule pop_next_runnable take_next
  run_scheduler-IsParked e t ts q c f n l r b = ground (arith, scan-cancelled e e.tasks c)

  abbrev pub IsQuiet : {e e' : ArmExecutor A} → Step e e' → Type 0
  IsQuiet (shuts_down cf h) = ⊥
  IsQuiet (tests h) = Unit
  IsQuiet (submits others arm cb k h) = Unit
  IsQuiet (cancels t h) = Unit
  IsQuiet (closes_pools cf h) = Unit
  IsQuiet (schedules a h) = Unit
  IsQuiet (dispatches t k h) = Unit
  IsQuiet (begins pool t rest k h) = Unit
  IsQuiet (returns pool t rest a k h) = Unit
  IsQuiet (raises pool t rest k h) = Unit

  -- Any steps but another call of `shutdown`.
  pub data Quietly (s : ArmExecutor A) : ArmExecutor A → Type 0 where
    stay : Quietly s s
    then_step : {e e' : ArmExecutor A} → Quietly s e → (st : Step e e') → IsQuiet st → Quietly s e'

  no_head :
      (e : ArmExecutor A) (pool : ArmSelection) (j : Job) (js : List Job)
      → IsParked e
      → executor_for e pool ≢ j ∷ js
  unfolding executor_for
  no_head e left j js v h = ground arith
  no_head e right j js v h = ground arith
  no_head e both j js v h = ground arith

  Step-IsParked : {e e' : ArmExecutor A} (st : Step e e') → IsQuiet st → IsParked e → IsParked e'
  unfolding pass_test enqueue cancel shutdown_pools drop_queued
  Step-IsParked {e} {e'} (tests h) q v = ground arith
  Step-IsParked {e} {e'} (submits others arm cb k h) q v = ground arith
  Step-IsParked {e} {e'} (cancels t h) q v = ground arith
  Step-IsParked {e} {e'} (shuts_down cf h) q v = absurd q
  Step-IsParked {e} {e'} (closes_pools cf h) q v = ground arith
  Step-IsParked {e} {e'} (schedules a h) q v = ground arith
  Step-IsParked {e} {e'} (dispatches t k h) q v = ground arith
  Step-IsParked {e} {e'} (begins pool t rest k h) q v =
      absurd (no_head e pool (queued_job t) rest v k)
  Step-IsParked {e} {e'} (returns pool t rest a k h) q v =
      absurd (no_head e pool (started_job t) rest v k)
  Step-IsParked {e} {e'} (raises pool t rest k h) q v =
      absurd (no_head e pool (started_job t) rest v k)

  Quietly-IsParked : {s e : ArmExecutor A} → Quietly s e → IsParked s → IsParked e
  Quietly-IsParked stay v = v
  Quietly-IsParked (then_step r st q) v = Step-IsParked st q (Quietly-IsParked r v)

  -- If the scheduler wakes after `shutdown` to a queue whose tasks are all cancelled, while no pool
  -- holds a task and no caller of `submit_for_arm` is between its test and the lock, it parks and
  -- stays: in every later state, whatever the threads do short of a second `shutdown`, the queue is
  -- empty, the flag is set and the scheduler still waits.
  pub shutdown_hangs :
      (e e' : ArmExecutor A) (t : QueuedTask) (ts : List QueuedTask)
      → e.tasks ≡ t ∷ ts
      → All (IsCancelled e) e.tasks
      → e.shutdown_flag ≡ true
      → e.submitting ≡ 0
      → e.left_pool ≡ []
      → e.right_pool ≡ []
      → e.bimanual_pool ≡ []
      → Quietly (run_scheduler e) e'
      → (e'.scheduler ≡ waiting) × (e'.tasks ≡ []) × (e'.shutdown_flag ≡ true)
  shutdown_hangs e e' t ts q c f n l r b steps =
      let v = Quietly-IsParked steps (run_scheduler-IsParked e t ts q c f n l r b) in
      (v.parked, v.no_tasks, v.flagged)

  -- The scheduler thread ended with `t` in hand.
  pub record IsLost (t : QueuedTask) (e : ArmExecutor A) : Type 0 where
    pub ended : e.scheduler ≡ died t
    pub owned : IsOwned e

  scheduler-cancel_each :
      (ts : List QueuedTask) (e : ArmExecutor A) → (cancel_each e ts).scheduler ≡ e.scheduler
  unfolding cancel_each cancel
  scheduler-cancel_each [] e = refl
  scheduler-cancel_each (t ∷ ts) e = scheduler-cancel_each ts (cancel e t)

  Step-died :
      {e e' : ArmExecutor A} (t : QueuedTask)
      → Step e e'
      → e.scheduler ≡ died t
      → e'.scheduler ≡ died t
  unfolding pass_test enqueue cancel shutdown shutdown_pools begin_task end_task set_pool release
      mark_busy
  Step-died {e} {e'} t (tests h) d = ground arith
  Step-died {e} {e'} t (submits others arm cb k h) d = ground arith
  Step-died {e} {e'} t (cancels x h) d = ground arith
  Step-died {e} {e'} t (shuts_down true h) d = ground (arith, scheduler-cancel_each e.tasks e)
  Step-died {e} {e'} t (shuts_down false h) d = ground arith
  Step-died {e} {e'} t (closes_pools cf h) d = ground arith
  Step-died {e} {e'} t (schedules a h) d = ground arith
  Step-died {e} {e'} t (dispatches x k h) d = ground arith
  Step-died {e} {e'} t (begins pool x rest k h) d = ground arith
  Step-died {e} {e'} t (returns pool x rest a k h) d = ground arith
  Step-died {e} {e'} t (raises pool x rest k h) d = ground arith

  owned_busy : (e : ArmExecutor A) (t : QueuedTask) → IsLost t e → can_run e t.requirement ≡ false
  unfolding can_run
  owned_busy e t v = let o = v.owned in ground arith

  Reach-IsLost : {s e : ArmExecutor A} {t : QueuedTask} → Reach s e → IsLost t s → IsLost t e
  Reach-IsLost here v = v
  Reach-IsLost {t = t} (next r st) v =
      let w = Reach-IsLost r v in
      record { ended = Step-died t st w.ended; owned = Step-IsOwned st w.owned }

  dispatch-IsLost :
      (e : ArmExecutor A) (t : QueuedTask)
      → IsOwned e
      → e.scheduler ≡ holding t
      → e.pools_down ≡ true
      → IsLost t (dispatch e t)
  unfolding dispatch
  dispatch-IsLost e t o h d = record {
    ended = ground arith;
    owned = Step-IsOwned (dispatches t h refl) o;
  }

  -- If the pools are shut down while the scheduler holds a task (`shutdown(wait=False)`), its
  -- `executor.submit` raises: the thread ends, and in every later state it stays ended and the
  -- task's arms stay busy.
  pub dispatch_loses :
      (e e' : ArmExecutor A) (t : QueuedTask)
      → IsOwned e
      → e.scheduler ≡ holding t
      → e.pools_down ≡ true
      → Reach (dispatch e t) e'
      → (e'.scheduler ≡ died t) × (can_run e' t.requirement ≡ false)
  dispatch_loses e e' t o h d steps =
      let v = Reach-IsLost steps (dispatch-IsLost e t o h d) in (v.ended, owned_busy e' t v)
