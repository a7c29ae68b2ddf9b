-- ===== src/Futures.antt =====
-- sdk/futures.py: the operations of `ArmExecutor`. The scheduler thread, the three one-worker pools
-- and the callers interleave; each function is what one of them does while it holds the lock, or
-- between two holds of it.
pub mod State
pub mod Steps
pub mod Exclusion
pub mod Scan
pub mod Hang
mod Examples
use r2_labs.Base.{ℕ, suc, Bool, true, false, List, [], ◌∷◌, ◌++◌, Option, none, some, if◌then◌else◌}
use State.{
  ArmSelection, left, right, both, FutureState, pending, cancelled, QueuedTask, Job, queued,
  started, Scheduler, awake, waiting, returned, holding, died, ArmExecutor, Submitted, accepted,
  shut_down, new_task, update, is_cancelled, cancel_state, settle, can_run, mark_busy, wake,
  release, drop_queued, executor_for, set_pool,
}

module _ {A : Type 0} where
  -- The scan of `_pop_next_runnable` from index `idx` on: the task it returns and what it leaves.
  pub scan : ArmExecutor A → List QueuedTask → Option QueuedTask × List QueuedTask
  scan e [] = (none, [])
  scan e (t ∷ ts) =
      let rest = scan e ts in
      if is_cancelled (e.futures t.future)
      then rest
      else if can_run e t.requirement
      then (some t, ts)
      else (rest.0, t ∷ rest.1)

  pub pop_next_runnable : ArmExecutor A → Option QueuedTask × ArmExecutor A
  pop_next_runnable e = let (t, ts) = scan e e.tasks in (t, record e { tasks = ts })

  -- `submit_for_arm` tests the flag without the lock; none is the RuntimeError.
  pub pass_test : ArmExecutor A → Option (ArmExecutor A)
  pass_test e = if e.shutdown_flag then none else some (record e { submitting = suc e.submitting })

  -- The rest of `submit_for_arm`, under the lock; `others` are the other callers past the test.
  pub enqueue : ArmExecutor A → ℕ → ArmSelection → Bool → ArmExecutor A
  enqueue e others arm has_callback = record e {
    submitting = others;
    tasks = e.tasks ++ new_task e.next_future arm has_callback ∷ [];
    futures = update e.futures e.next_future pending;
    future_arm = update e.future_arm e.next_future (some arm);
    next_future = suc e.next_future;
    scheduler = wake e.scheduler;
  }

  -- A call that no other thread interrupts.
  pub submit_for_arm : ArmExecutor A → ArmSelection → Bool → Submitted A
  unfolding pass_test enqueue
  submit_for_arm e arm has_callback = elim (pass_test e) [
    | none ↦ shut_down
    | some e' ↦ accepted e'.next_future (enqueue e' e.submitting arm has_callback)
  ]

  pub submit : ArmExecutor A → Bool → Submitted A
  submit e has_callback = submit_for_arm e left has_callback

  pub arm_for : ArmExecutor A → ℕ → Option ArmSelection
  arm_for e f = e.future_arm f

  -- `CancellableFuture.cancel`; an exception of the callback is swallowed.
  pub cancel : ArmExecutor A → QueuedTask → ArmExecutor A
  cancel e t = record e {
    callbacks = if t.has_callback then e.callbacks ++ t.future ∷ [] else e.callbacks;
    futures = update e.futures t.future (cancel_state (e.futures t.future));
  }

  pub cancel_each : ArmExecutor A → List QueuedTask → ArmExecutor A
  cancel_each e [] = e
  cancel_each e (t ∷ ts) = cancel_each (cancel e t) ts

  -- The locked part of `shutdown`.
  pub shutdown : ArmExecutor A → Bool → ArmExecutor A
  unfolding cancel_each
  shutdown e cancel_futures =
      let e' = if cancel_futures then record (cancel_each e e.tasks) { tasks = [] } else e in
      record e' { shutdown_flag = true; scheduler = wake e'.scheduler }

  -- `ThreadPoolExecutor.shutdown` of the three pools: nothing more is taken, and with
  -- `cancel_futures` what no worker has started is dropped.
  pub shutdown_pools : ArmExecutor A → Bool → ArmExecutor A
  unfolding drop_queued
  shutdown_pools e cancel_futures =
      if cancel_futures
      then record e {
        pools_down = true;
        left_pool = drop_queued e.left_pool;
        right_pool = drop_queued e.right_pool;
        bimanual_pool = drop_queued e.bimanual_pool;
      }
      else record e { pools_down = true }

  -- One pass of `_run_scheduler` under the lock.
  take_next : Option QueuedTask × ArmExecutor A → ArmExecutor A
  unfolding mark_busy
  take_next (none, e) = record e { scheduler = waiting }
  take_next (some t, e) =
      let e' = mark_busy e t.requirement true in record e' { scheduler = holding t }

  schedule : List QueuedTask → ArmExecutor A → ArmExecutor A
  unfolding take_next
  schedule [] e = record e { scheduler = if e.shutdown_flag then returned else waiting }
  schedule (_ ∷ _) e = take_next (pop_next_runnable e)

  pub run_scheduler : ArmExecutor A → ArmExecutor A
  unfolding schedule
  run_scheduler e = schedule e.tasks e

  -- A pool that is shut down raises, which ends the scheduler thread.
  pub dispatch : ArmExecutor A → QueuedTask → ArmExecutor A
  unfolding executor_for set_pool
  dispatch e t =
      if e.pools_down
      then record e { scheduler = died t }
      else let e' =
          set_pool e t.requirement
            (executor_for e t.requirement ++ record { task = t; stage = queued } ∷ []) in
        record e' { scheduler = awake }

  -- `_run_task` on the head of a pool, up to the call of `fn`, and from its return on.
  pub begin_task : ArmExecutor A → ArmSelection → QueuedTask → List Job → ArmExecutor A
  unfolding set_pool release
  begin_task e pool t rest =
      if is_cancelled (e.futures t.future)
      then release (set_pool e pool rest) t.requirement
      else set_pool e pool (record { task = t; stage = started } ∷ rest)

  pub end_task :
      ArmExecutor A → ArmSelection → QueuedTask → List Job → FutureState A → ArmExecutor A
  unfolding set_pool release
  end_task e pool t rest outcome =
      let e' = record e {
        futures = update e.futures t.future (settle (e.futures t.future) outcome);
      } in
      release (set_pool e' pool rest) t.requirement
