-- ===== src/Futures/State.antt =====
-- sdk/futures.py: the executor's data, the future objects, the busy flags and the pools.
use r2_labs.Base.{ℕ, Bool, true, false, not, ◌&&◌, List, [], ◌∷◌, Option, none, if◌then◌else◌, ◌==◌}

pub data ArmSelection : Type 0 where
  left right both : ArmSelection

-- `concurrent.futures.Future`: this executor never marks a future as running.
pub data FutureState (A : Type 0) : Type 0 where
  pending : FutureState A
  cancelled : FutureState A
  result : A → FutureState A
  raised : FutureState A

pub record QueuedTask : Type 0 where
  pub requirement : ArmSelection
  pub future : ℕ
  pub has_callback : Bool

-- A pool's entry: queued for the pool's worker, started by it, or dropped by the pool's shutdown.
pub data Stage : Type 0 where
  queued started dropped : Stage

pub record Job : Type 0 where
  pub task : QueuedTask
  pub stage : Stage

-- The scheduler thread: about to take the lock, parked in `_cv.wait`, between the lock and
-- `executor.submit` with a task in hand, returned, or ended by an exception of `executor.submit`.
pub data Scheduler : Type 0 where
  awake waiting returned : Scheduler
  holding died : QueuedTask → Scheduler

-- `submitting` counts the callers of `submit_for_arm` between its test and the lock; `futures` is the
-- store of the future objects, `callbacks` the cancel callbacks called so far.
pub record ArmExecutor (A : Type 0) : Type 0 where
  pub submitting : ℕ
  pub tasks : List QueuedTask
  pub futures : ℕ → FutureState A
  pub future_arm : ℕ → Option ArmSelection
  pub next_future : ℕ
  pub callbacks : List ℕ
  pub left_busy : Bool
  pub right_busy : Bool
  pub shutdown_flag : Bool
  pub pools_down : Bool
  pub scheduler : Scheduler
  pub left_pool : List Job
  pub right_pool : List Job
  pub bimanual_pool : List Job

abbrev pub update {ℓ} : {V : Type ℓ} → (ℕ → V) → ℕ → V → ℕ → V
update f k v j = if j == k then v else f j

abbrev pub new_task : ℕ → ArmSelection → Bool → QueuedTask
new_task future arm has_callback = record {
  requirement = arm;
  future = future;
  has_callback = has_callback;
}

pub data Submitted (A : Type 0) : Type 0 where
  accepted : ℕ → ArmExecutor A → Submitted A
  shut_down : Submitted A

-- `_cv.notify` and `_cv.notify_all`: the scheduler is the one thread that waits.
abbrev pub wake : Scheduler → Scheduler
wake waiting = awake
wake s = s

-- `cancel_futures` of a pool's shutdown: what no worker has started is dropped.
unfoldable pub drop_queued : List Job → List Job
drop_queued [] = []
drop_queued (job ∷ js) =
    elim job.stage [ queued ↦ record job { stage = dropped } | started ↦ job | dropped ↦ job ]
    ∷ drop_queued js

module _ {A : Type 0} where
  unfoldable pub init : ArmExecutor A
  init = record {
    submitting = 0;
    tasks = [];
    futures = λ _. pending;
    future_arm = λ _. none;
    next_future = 0;
    callbacks = [];
    left_busy = false;
    right_busy = false;
    shutdown_flag = false;
    pools_down = false;
    scheduler = awake;
    left_pool = [];
    right_pool = [];
    bimanual_pool = [];
  }

  -- `Future.cancelled`, `Future.cancel`, and `set_result` or `set_exception` behind the test.
  abbrev pub is_cancelled : FutureState A → Bool
  is_cancelled cancelled = true
  is_cancelled _ = false

  abbrev pub cancel_state : FutureState A → FutureState A
  cancel_state pending = cancelled
  cancel_state s = s

  abbrev pub settle : FutureState A → FutureState A → FutureState A
  settle pending s = s
  settle s _ = s

  unfoldable pub can_run : ArmExecutor A → ArmSelection → Bool
  can_run e left = not e.left_busy
  can_run e right = not e.right_busy
  can_run e both = not e.left_busy && not e.right_busy

  unfoldable pub mark_busy : ArmExecutor A → ArmSelection → Bool → ArmExecutor A
  mark_busy e left busy = record e { left_busy = busy }
  mark_busy e right busy = record e { right_busy = busy }
  mark_busy e both busy = record e { left_busy = busy; right_busy = busy }

  unfoldable pub release : ArmExecutor A → ArmSelection → ArmExecutor A
  unfolding mark_busy
  release e requirement =
      let e' = mark_busy e requirement false in record e' { scheduler = wake e'.scheduler }

  unfoldable pub executor_for : ArmExecutor A → ArmSelection → List Job
  executor_for e left = e.left_pool
  executor_for e right = e.right_pool
  executor_for e both = e.bimanual_pool

  unfoldable pub set_pool : ArmExecutor A → ArmSelection → List Job → ArmExecutor A
  set_pool e left js = record e { left_pool = js }
  set_pool e right js = record e { right_pool = js }
  set_pool e both js = record e { bimanual_pool = js }
