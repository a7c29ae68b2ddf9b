-- ===== src/Futures/Exclusion.antt =====
-- The busy flags count exactly the tasks that hold an arm, in every interleaving.
use r2_labs.Base.{
  ℕ, ◌+◌, ◌≡◌, refl, Bool, true, false, List, [], ◌∷◌, Option, none, some, arith, length,
  length-append, All, All-append,
}
use r2_labs.Futures.State.{
  ArmSelection, left, right, both, FutureState, result, raised, QueuedTask, Job, Scheduler, awake,
  waiting, returned, holding, died, ArmExecutor, init, can_run, mark_busy, release, drop_queued,
  executor_for, set_pool,
}
use r2_labs.Futures.{
  scan, pop_next_runnable, pass_test, enqueue, cancel, cancel_each, shutdown, shutdown_pools,
  take_next, schedule, run_scheduler, dispatch, begin_task, end_task,
}
use r2_labs.Futures.Steps.{
  Step, tests, submits, cancels, shuts_down, closes_pools, schedules, dispatches, begins, returns,
  raises, Reach, here, next, queued_job, started_job,
}

abbrev pub bit : Bool → ℕ
bit true = 1
bit false = 0

abbrev pub uses_left : ArmSelection → ℕ
uses_left left = 1
uses_left right = 0
uses_left both = 1

abbrev pub uses_right : ArmSelection → ℕ
uses_right left = 0
uses_right right = 1
uses_right both = 1

-- What the scheduler thread has marked busy and not handed to a pool.
abbrev pub in_hand : (ArmSelection → ℕ) → Scheduler → ℕ
in_hand uses (holding t) = uses t.requirement
in_hand uses (died t) = uses t.requirement
in_hand uses awake = 0
in_hand uses waiting = 0
in_hand uses returned = 0

abbrev pub Requires : ArmSelection → Job → Type 0
Requires arm j = j.task.requirement ≡ arm

-- Each flag is the number of tasks that hold its arm, and a pool holds only tasks of its kind.
pub record IsOwned {A : Type 0} (e : ArmExecutor A) : Type 0 where
  pub left_held :
      in_hand uses_left e.scheduler + length e.left_pool + length e.bimanual_pool ≡ bit e.left_busy
  pub right_held :
      in_hand uses_right e.scheduler + length e.right_pool + length e.bimanual_pool
      ≡ bit e.right_busy
  pub left_tasks : All (Requires left) e.left_pool
  pub right_tasks : All (Requires right) e.right_pool
  pub bimanual_tasks : All (Requires both) e.bimanual_pool

init-IsOwned : {A : Type 0} → IsOwned (init {A = A})
unfolding init
init-IsOwned = omega arith

length-drop_queued : (js : List Job) → length (drop_queued js) ≡ length js
unfolding drop_queued
length-drop_queued [] = refl
length-drop_queued (j ∷ js) = omega (arith, length-drop_queued js)

All-drop_queued :
    (arm : ArmSelection) (js : List Job)
    → All (Requires arm) js
    → All (Requires arm) (drop_queued js)
unfolding drop_queued
All-drop_queued arm [] h = tt
All-drop_queued arm (j ∷ js) h = (ground arith, All-drop_queued arm js h.1)

module _ {A : Type 0} where
  pass_test-IsOwned : (e e' : ArmExecutor A) → pass_test e ≡ some e' → IsOwned e → IsOwned e'
  unfolding pass_test
  pass_test-IsOwned e e' h v = ground arith

  enqueue-IsOwned :
      (e : ArmExecutor A) (others : ℕ) (arm : ArmSelection) (cb : Bool)
      → IsOwned e
      → IsOwned (enqueue e others arm cb)
  unfolding enqueue
  enqueue-IsOwned e others arm cb v = ground arith

  cancel-IsOwned : (e : ArmExecutor A) (t : QueuedTask) → IsOwned e → IsOwned (cancel e t)
  unfolding cancel
  cancel-IsOwned e t v = record {
    left_held = v.left_held;
    right_held = v.right_held;
    left_tasks = v.left_tasks;
    right_tasks = v.right_tasks;
    bimanual_tasks = v.bimanual_tasks;
  }

  cancel_each-IsOwned :
      (ts : List QueuedTask) (e : ArmExecutor A) → IsOwned e → IsOwned (cancel_each e ts)
  unfolding cancel_each
  cancel_each-IsOwned [] e v = v
  cancel_each-IsOwned (t ∷ ts) e v = cancel_each-IsOwned ts (cancel e t) (cancel-IsOwned e t v)

  shutdown-IsOwned : (e : ArmExecutor A) (cf : Bool) → IsOwned e → IsOwned (shutdown e cf)
  unfolding shutdown
  shutdown-IsOwned e true v = let w = cancel_each-IsOwned e.tasks e v in ground arith
  shutdown-IsOwned e false v = ground arith

  shutdown_pools-IsOwned :
      (e : ArmExecutor A) (cf : Bool) → IsOwned e → IsOwned (shutdown_pools e cf)
  unfolding shutdown_pools
  shutdown_pools-IsOwned e true v = record {
    left_held =
        omega
          (arith, v.left_held, length-drop_queued e.left_pool, length-drop_queued e.bimanual_pool);
    right_held =
        omega (
          arith,
          v.right_held,
          length-drop_queued e.right_pool,
          length-drop_queued e.bimanual_pool,
        );
    left_tasks = All-drop_queued left e.left_pool v.left_tasks;
    right_tasks = All-drop_queued right e.right_pool v.right_tasks;
    bimanual_tasks = All-drop_queued both e.bimanual_pool v.bimanual_tasks;
  }
  shutdown_pools-IsOwned e false v = ground arith

  -- What the scan returns could run when the scan began.
  scan-can_run :
      (e : ArmExecutor A) (ts : List QueuedTask) (t : QueuedTask)
      → (scan e ts).0 ≡ some t
      → can_run e t.requirement ≡ true
  unfolding scan
  scan-can_run e [] t h = cc
  scan-can_run e (x ∷ ts) t h = ground (arith, scan-can_run e ts t)

  take_next-IsOwned :
      (e : ArmExecutor A) (o : Option QueuedTask) (ts : List QueuedTask)
      → ((t : QueuedTask) → o ≡ some t → can_run e t.requirement ≡ true)
      → e.scheduler ≡ awake
      → IsOwned e
      → IsOwned (take_next (o, record e { tasks = ts }))
  unfolding take_next can_run mark_busy
  take_next-IsOwned e none ts r a v = ground arith
  take_next-IsOwned e (some t) ts r a v = ground (arith, r t refl)

  schedule-IsOwned :
      (ts : List QueuedTask) (e : ArmExecutor A)
      → e.scheduler ≡ awake
      → IsOwned e
      → IsOwned (schedule ts e)
  unfolding schedule pop_next_runnable
  schedule-IsOwned [] e a v = ground arith
  schedule-IsOwned (t ∷ ts) e a v =
      take_next-IsOwned e (scan e e.tasks).0 (scan e e.tasks).1 (scan-can_run e e.tasks) a v

  dispatch-IsOwned :
      (e : ArmExecutor A) (t : QueuedTask)
      → e.scheduler ≡ holding t
      → IsOwned e
      → IsOwned (dispatch e t)
  unfolding dispatch executor_for set_pool
  dispatch-IsOwned e t h v = ground (
    arith,
    length-append e.left_pool (queued_job t ∷ []),
    length-append e.right_pool (queued_job t ∷ []),
    length-append e.bimanual_pool (queued_job t ∷ []),
    All-append (Requires left) e.left_pool (queued_job t ∷ []),
    All-append (Requires right) e.right_pool (queued_job t ∷ []),
    All-append (Requires both) e.bimanual_pool (queued_job t ∷ []),
  )

  begin-IsOwned :
      (e : ArmExecutor A) (pool : ArmSelection) (t : QueuedTask) (rest : List Job)
      → executor_for e pool ≡ queued_job t ∷ rest
      → IsOwned e
      → IsOwned (begin_task e pool t rest)
  unfolding begin_task executor_for set_pool release mark_busy
  begin-IsOwned e left t rest h v = ground arith
  begin-IsOwned e right t rest h v = ground arith
  begin-IsOwned e both t rest h v = ground arith

  end-IsOwned :
      (e : ArmExecutor A) (pool : ArmSelection) (t : QueuedTask) (rest : List Job)
      (s : FutureState A)
      → executor_for e pool ≡ started_job t ∷ rest
      → IsOwned e
      → IsOwned (end_task e pool t rest s)
  unfolding end_task executor_for set_pool release mark_busy
  end-IsOwned e left t rest s h v = ground arith
  end-IsOwned e right t rest s h v = ground arith
  end-IsOwned e both t rest s h v = ground arith

  pub Step-IsOwned : {e e' : ArmExecutor A} → Step e e' → IsOwned e → IsOwned e'
  unfolding run_scheduler
  Step-IsOwned {e} {e'} (tests h) v = pass_test-IsOwned e e' h v
  Step-IsOwned {e} (submits others arm cb k h) v = rw h (enqueue-IsOwned e others arm cb v)
  Step-IsOwned {e} (cancels t h) v = rw h (cancel-IsOwned e t v)
  Step-IsOwned {e} (shuts_down cf h) v = rw h (shutdown-IsOwned e cf v)
  Step-IsOwned {e} (closes_pools cf h) v = rw h (shutdown_pools-IsOwned e cf v)
  Step-IsOwned {e} (schedules a h) v = rw h (schedule-IsOwned e.tasks e a v)
  Step-IsOwned {e} (dispatches t k h) v = rw h (dispatch-IsOwned e t k v)
  Step-IsOwned {e} (begins pool t rest k h) v = rw h (begin-IsOwned e pool t rest k v)
  Step-IsOwned {e} (returns pool t rest a k h) v = rw h (end-IsOwned e pool t rest (result a) k v)
  Step-IsOwned {e} (raises pool t rest k h) v = rw h (end-IsOwned e pool t rest raised k v)

  -- In every interleaving from a new executor each busy flag is exactly the number of tasks that
  -- hold its arm, whether in the scheduler's hand or in a pool, and each pool holds its own kind.
  pub Reach-IsOwned : {e : ArmExecutor A} → Reach init e → IsOwned e
  Reach-IsOwned here = init-IsOwned
  Reach-IsOwned (next r s) = Step-IsOwned s (Reach-IsOwned r)
