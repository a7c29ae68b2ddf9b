-- ===== src/Tickets/Submissions.antt =====
-- A submitted behaviour at concrete inputs.
use r2_labs.Base.{◌≡◌, refl, true, false, [], ◌∷◌, none, some}
use r2_labs.Base.Dict.{nat_eq, insert}
use r2_labs.Cancellation.{register_cancel}
use r2_labs.Tickets.Wait.{TicketStatus, Poll, at_start}
use r2_labs.Tickets.Cancels.{is_in}
use r2_labs.Tickets.Submit.{
  Stage, Behaviour, submitted, waits, callback_sets, run_answered, run_stores, polls, sets, drops,
  begins, answered, stores, Reach, here, next,
}
use r2_labs.Tickets.Registered.{IsRegistered, Reach-IsRegistered}
use r2_labs.Tickets.Heard.{round_cancels}

-- The callback comes between the answer of the server and the storing of the ticket.
abbrev late : Behaviour
late = record {
  stage = Stage.waiting;
  event_set = true;
  ticket = some 5;
  calling = 1;
  progress = at_start;
  cancels = [];
  registry = (7, 7) ∷ [];
}

late_reached : Reach 7 (waits 0 none) (submitted 7 []) late
unfolding submitted register_cancel insert callback_sets run_answered run_stores
late_reached =
    next (next (next (next here (begins refl refl)) (answered (some 5) refl refl)) (sets refl))
      (stores 5 refl refl)

Reach-IsRegistered_example : IsRegistered 7 (waits 0 none) late
Reach-IsRegistered_example = Reach-IsRegistered 7 (waits 0 none) [] late_reached

abbrev running : Poll
running = record {
  event_set = true;
  cancelled_at = 100;
  reply = some (record {
    info =
        some (record {
          status = TicketStatus.running;
          termination_reason = none;
          error_message = none;
        });
    not_found = false;
  });
  grace_now = 100;
  timeout_now = 100;
}

round_cancels_example : is_in 5 (polls 7 (waits 0 none) running late).cancels ≡ true
round_cancels_example = round_cancels 7 0 none [] 5 running late_reached refl refl refl refl

-- The future is cancelled while the task is queued: the callback stays registered.
abbrev forgotten : Behaviour
forgotten = record {
  stage = Stage.dropped;
  event_set = true;
  ticket = none;
  calling = 1;
  progress = at_start;
  cancels = [];
  registry = (7, 7) ∷ [];
}

forgotten_reached : Reach 7 (waits 0 none) (submitted 7 []) forgotten
unfolding submitted register_cancel insert callback_sets
forgotten_reached = next (next here (sets refl)) (drops refl refl)
