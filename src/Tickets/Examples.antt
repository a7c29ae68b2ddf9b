-- ===== src/Tickets/Examples.antt =====
-- Waits and cancellations at concrete inputs.
use r2_labs.Base.{ℕ, ◌≡◌, ◌≢◌, refl, Bool, true, false, List, [], ◌∷◌, none, some, arith}
use r2_labs.Base.Text.{codes, text_beq}
use r2_labs.Tickets.Wait.{
  TicketStatus, TicketInfo, TicketStatusResponse, done, polling, Waiting, at_start, Poll,
  failure_message, wait_for_ticket,
}
use r2_labs.Tickets.Deadlines.{wait_cancel_grace}
use r2_labs.Tickets.Outcomes.{EndedBy, wait_reports}
use r2_labs.Tickets.Motion.{
  Stage, Motion, submitted, callback_sets, callback_reads, run_begins, run_answered, run_stores,
  run_checks, sets, reads, begins, answered, stores, checks, Reach, here, next,
}
use r2_labs.Tickets.Cancels.{is_in, cancel_reaches_ticket, cancel_abandons_own}

abbrev info_of : TicketStatus → TicketInfo
info_of status = record { status = status; termination_reason = none; error_message = none }

abbrev answer : TicketStatus → TicketStatusResponse
answer status = record { info = some (info_of status); not_found = false }

abbrev poll_at : ℕ → Bool → TicketStatus → Poll
poll_at now event status = record {
  event_set = event;
  cancelled_at = now;
  reply = some (answer status);
  grace_now = now;
  timeout_now = now;
}

abbrev patient : Waiting
patient = record { start = 0; timeout = some 1000; has_cancel_event = true; has_on_cancel = true }

abbrev two_rounds : List Poll
two_rounds = poll_at 100 false TicketStatus.running ∷ poll_at 200 false TicketStatus.completed ∷ []

wait_cancel_grace_example :
    (wait_for_ticket patient at_start (
      poll_at 100 false TicketStatus.running
      ∷ poll_at 200 true TicketStatus.running
      ∷ poll_at 2201 true TicketStatus.running
      ∷ [])).0
    ≢ polling
wait_cancel_grace_example =
    wait_cancel_grace patient (poll_at 100 false TicketStatus.running ∷ [])
      (poll_at 200 true TicketStatus.running) [] (poll_at 2201 true TicketStatus.running) [] refl
      (refl, tt) refl (omega arith)

wait_reports_example : EndedBy two_rounds (done (answer TicketStatus.completed))
unfolding wait_for_ticket
wait_reports_example =
    wait_reports patient two_rounds at_start (done (answer TicketStatus.completed)) tt refl

failure_text :
    failure_message (codes "t1") (some (codes "collision")) (some (codes "stopped"))
    ≡ codes "behaviour ticket t1 failed: stopped (termination_reason=collision)"
unfolding failure_message text_beq
failure_text = refl

-- The callback sets its flag while the motion is being initiated and reads no ticket; the task then
-- stores the ticket and abandons it.
abbrev late_cancel : Motion
late_cancel = record {
  stage = Stage.waiting;
  cancelled = true;
  ticket = some 5;
  calling = 0;
  server_ticket = some 5;
  abandoned = 5 ∷ [];
}

late_cancel_reached : Reach submitted late_cancel
unfolding submitted callback_sets callback_reads run_begins run_answered run_stores run_checks
late_cancel_reached =
    next
      (next
        (next (next (next (next here (begins refl refl)) (sets refl)) (reads 0 refl refl))
          (answered (some 5) refl refl))
        (stores 5 refl refl))
      (checks refl refl)

cancel_reaches_ticket_example : is_in 5 late_cancel.abandoned ≡ true
cancel_reaches_ticket_example = cancel_reaches_ticket 5 late_cancel_reached refl refl refl refl

cancel_abandons_own_example : late_cancel.server_ticket ≡ some 5
cancel_abandons_own_example = cancel_abandons_own 5 late_cancel_reached refl
