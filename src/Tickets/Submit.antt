-- ===== src/Tickets/Submit.antt =====
-- sdk/client.py: `BehaviourClient._submit_behaviour`, with the registry of sdk/cancellation.py and the
-- wait for the ticket. The executor's task, the callers of the cancel callback and the other
-- behaviours are threads; `cancels` lists the tickets that `cancel_behaviour` was called with.
use r2_labs.Base.{ℕ, zero, suc, ◌≡◌, ◌≢◌, Bool, true, false, List, [], Option, none, some}
use r2_labs.Base.Dict.{nat_eq}
use r2_labs.Cancellation.{Registry, register_cancel, unregister_cancel}
use r2_labs.Tickets.Wait.{Outcome, Waiting, Progress, at_start, Poll, request_cancel, verdict}
use r2_labs.Tickets.Motion.{abandon}

-- `dropped` is a task that the executor never runs, since its future was cancelled before.
pub data Stage : Type 0 where
  queued dropped initiating waiting ended : Stage
  granted : ℕ → Stage

-- `calling` counts the callbacks between the setting of the event and the reading of the ticket.
pub record Behaviour : Type 0 where
  pub stage : Stage
  pub event_set : Bool
  pub ticket : Option ℕ
  pub calling : ℕ
  pub progress : Progress
  pub cancels : List ℕ
  pub registry : Registry ℕ

-- `_cancel_callback`, in two parts.
unfoldable pub callback_sets : Behaviour → Behaviour
callback_sets b = record b { event_set = true; calling = suc b.calling }

unfoldable pub callback_reads : ℕ → Behaviour → Behaviour
unfolding abandon
callback_reads others b = record b { calling = others; cancels = abandon b.ticket b.cancels }

unfoldable pub run_stores : ℕ → Behaviour → Behaviour
run_stores t b = record b { stage = waiting; ticket = some t }

-- `on_cancel`, as often as the round calls it.
unfoldable pub calls_on_cancel : ℕ → Option ℕ → List ℕ → List ℕ
unfolding abandon
calls_on_cancel zero ticket cancels = cancels
calls_on_cancel (suc n) ticket cancels = calls_on_cancel n ticket (abandon ticket cancels)

-- The arguments that `wait_for_ticket` gets.
abbrev pub waits : ℕ → Option ℕ → Waiting
waits start timeout = record {
  start = start;
  timeout = timeout;
  has_cancel_event = true;
  has_on_cancel = true;
}

-- `token` is the identity of the behaviour's callback.
module _ (token : ℕ) where
  unfoldable pub submitted : Registry ℕ → Behaviour
  unfolding register_cancel
  submitted r = record {
    stage = queued;
    event_set = false;
    ticket = none;
    calling = 0;
    progress = at_start;
    cancels = [];
    registry = (register_cancel token token r).1;
  }

  -- The `finally` of `_task`.
  unfoldable pub task_ends : Behaviour → Behaviour
  unfolding unregister_cancel
  task_ends b = record b { stage = ended; registry = unregister_cancel token b.registry }

  -- `_run`: the answer of `initiate_fn`, none if it raises or has no ticket, and the storing.
  unfoldable pub run_answered : Option ℕ → Behaviour → Behaviour
  unfolding task_ends
  run_answered none b = task_ends b
  run_answered (some t) b = record b { stage = granted t }

  unfoldable pub round_ends : Option Outcome → Behaviour → Behaviour
  unfolding task_ends
  round_ends none b = b
  round_ends (some o) b = task_ends b

  -- One round of `wait_for_ticket`.
  unfoldable pub polls : Waiting → Poll → Behaviour → Behaviour
  unfolding request_cancel verdict calls_on_cancel round_ends
  polls w p b =
      let (progress, n) = request_cancel w b.progress p in
      round_ends (verdict w progress p)
        (record b { progress = progress; cancels = calls_on_cancel n b.ticket b.cancels })

  pub data Step (w : Waiting) (b b' : Behaviour) : Type 0 where
    sets : b' ≡ callback_sets b → Step w b b'
    reads : (others : ℕ) → b.calling ≡ suc others → b' ≡ callback_reads others b → Step w b b'
    drops : b.stage ≡ queued → b' ≡ record b { stage = dropped } → Step w b b'
    begins : b.stage ≡ queued → b' ≡ record b { stage = initiating } → Step w b b'
    answered : (o : Option ℕ) → b.stage ≡ initiating → b' ≡ run_answered o b → Step w b b'
    stores : (t : ℕ) → b.stage ≡ granted t → b' ≡ run_stores t b → Step w b b'
    rounds :
        (p : Poll) → b.stage ≡ waiting → p.event_set ≡ b.event_set → b' ≡ polls w p b → Step w b b'
    registers :
        (j : ℕ)
        → j ≢ token
        → b' ≡ record b { registry = (register_cancel j j b.registry).1 }
        → Step w b b'
    unregisters :
        (j : ℕ)
        → j ≢ token
        → b' ≡ record b { registry = unregister_cancel j b.registry }
        → Step w b b'

  pub data Reach (w : Waiting) (s : Behaviour) : Behaviour → Type 0 where
    here : Reach w s s
    next : {b b' : Behaviour} → Reach w s b → Step w b b' → Reach w s b'
