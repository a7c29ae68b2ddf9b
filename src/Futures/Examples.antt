-- ===== src/Futures/Examples.antt =====
-- Runs of the arm-aware executor at concrete inputs.
use r2_labs.Base.{ℕ, ◌≡◌, refl, true, false, [], some}
use r2_labs.Futures.State.{
  left, right, both, QueuedTask, waiting, died, ArmExecutor, accepted, new_task, init, can_run,
  mark_busy, Submitted, shut_down,
}
use r2_labs.Futures.{
  submit_for_arm, pass_test, enqueue, pop_next_runnable, cancel, shutdown, shutdown_pools,
  run_scheduler, dispatch, schedule, scan, take_next,
}
use r2_labs.Futures.Steps.{shuts_down, tests, submits, schedules, closes_pools, Reach, here, next}
use r2_labs.Futures.Exclusion.{IsOwned, Reach-IsOwned}
use r2_labs.Futures.Scan.{Taken, pop_next_runnable-Taken}
use r2_labs.Futures.Hang.{stay, shutdown_hangs, dispatch_loses}

abbrev lone : QueuedTask
lone = new_task 0 left true

abbrev after_submit : Submitted ℕ → ArmExecutor ℕ
after_submit (accepted f e) = e
after_submit shut_down = init

-- A task for the left arm is queued.
abbrev one_queued : ArmExecutor ℕ
one_queued = after_submit (submit_for_arm init left true)

-- A task for both arms behind one for the left arm, which the scheduler has taken.
abbrev two_queued : ArmExecutor ℕ
two_queued = after_submit (submit_for_arm (run_scheduler one_queued) both false)

abbrev three_queued : ArmExecutor ℕ
three_queued = after_submit (submit_for_arm two_queued right false)

one_queued_taken : Reach init (run_scheduler one_queued)
unfolding init submit_for_arm pass_test enqueue
one_queued_taken =
    next (next (next here (tests refl)) (submits 0 left true refl refl)) (schedules refl refl)

Reach-IsOwned_example : IsOwned (run_scheduler one_queued)
Reach-IsOwned_example = Reach-IsOwned one_queued_taken

-- With the left arm taken, the task for both arms is passed over by the later one for the right.
pop_next_runnable-Taken_example :
    Taken three_queued three_queued.tasks
      (pop_next_runnable three_queued).0
      (pop_next_runnable three_queued).1.tasks
pop_next_runnable-Taken_example = pop_next_runnable-Taken three_queued

both_is_passed_over : (pop_next_runnable three_queued).0 ≡ some (new_task 2 right false)
unfolding init submit_for_arm pass_test enqueue run_scheduler pop_next_runnable take_next schedule
    scan can_run mark_busy
both_is_passed_over = refl

-- The one task is cancelled, then `shutdown` is called before the scheduler has run.
abbrev all_cancelled : ArmExecutor ℕ
all_cancelled = shutdown (cancel one_queued lone) false

shutdown_hangs_example :
    ((run_scheduler all_cancelled).scheduler ≡ waiting)
    × ((run_scheduler all_cancelled).tasks ≡ [])
    × ((run_scheduler all_cancelled).shutdown_flag ≡ true)
unfolding init submit_for_arm pass_test enqueue cancel shutdown
shutdown_hangs_example =
    shutdown_hangs all_cancelled (run_scheduler all_cancelled) lone [] refl (refl, tt) refl refl
      refl refl refl stay

-- `shutdown(wait=False)` shuts the pools down while the scheduler holds the task.
abbrev pools_closed : ArmExecutor ℕ
pools_closed = shutdown_pools (shutdown (run_scheduler one_queued) false) false

pools_closed-IsOwned : IsOwned pools_closed
pools_closed-IsOwned =
    Reach-IsOwned (next (next one_queued_taken (shuts_down false refl)) (closes_pools false refl))

dispatch_loses_example :
    ((dispatch pools_closed lone).scheduler ≡ died lone)
    × (can_run (dispatch pools_closed lone) left ≡ false)
unfolding init submit_for_arm pass_test enqueue run_scheduler pop_next_runnable take_next schedule
    scan can_run mark_busy shutdown shutdown_pools
dispatch_loses_example =
    dispatch_loses pools_closed (dispatch pools_closed lone) lone pools_closed-IsOwned refl refl
      here
