-- ===== src/Tickets/Wait.antt =====
-- sdk/client.py: `BehaviourClient.wait_for_ticket`, with the ticket data of sdk/rpc_api.py. The loop
-- reads the cancel event, the server and the clock; one `Poll` is what it reads in one round. Time
-- is in milliseconds.
use r2_labs.Base.{
  ℕ, ◌+◌, ◌-◌, Bool, true, false, not, ◌&&◌, List, [], ◌∷◌, ◌++◌, Option, none, some, if◌then◌else◌,
  ltb,
}
use r2_labs.Base.Text.{Text, text_eq, text_beq, codes}

pub data TicketStatus : Type 0 where
  pending running completed failed : TicketStatus

pub record TicketInfo : Type 0 where
  pub status : TicketStatus
  pub termination_reason : Option Text
  pub error_message : Option Text

pub record TicketStatusResponse : Type 0 where
  pub info : Option TicketInfo
  pub not_found : Bool

-- _CANCEL_GRACE_SECONDS
abbrev pub cancel_grace : ℕ
cancel_grace = 2000

-- Python's `a or b` on an optional string and a string.
unfoldable pub or_text : Option Text → Text → Text
or_text none b = b
or_text (some []) b = b
or_text (some (c ∷ a)) b = c ∷ a

-- `BehaviourFailedError.__init__`: the detail and the suffix of the message.
unfoldable pub failure_detail : Option Text → Option Text → Text
unfolding or_text
failure_detail reason message = or_text message (or_text reason (codes "unknown reason"))

unfoldable pub failure_suffix : Option Text → Text → Text
failure_suffix none detail = []
failure_suffix (some []) detail = []
failure_suffix (some (c ∷ r)) detail =
    if text_beq (c ∷ r) detail then [] else codes " (termination_reason=" ++ ((c ∷ r) ++ codes ")")

unfoldable pub failure_message : Text → Option Text → Option Text → Text
unfolding failure_detail failure_suffix
failure_message ticket reason message =
    let detail = failure_detail reason message in
    codes "behaviour ticket "
    ++ (ticket ++ (codes " failed: " ++ (detail ++ failure_suffix reason detail)))

-- How the wait ends: a status is returned, an exception of its own is raised, or the status call
-- raises. `polling` is a wait that has not ended yet.
pub data Outcome : Type 0 where
  done : TicketStatusResponse → Outcome
  behaviour_failed : Option Text → Option Text → Outcome
  not_found cancelled timed_out rpc_failed polling : Outcome

-- The arguments, and the time at which the wait began.
pub record Waiting : Type 0 where
  pub start : ℕ
  pub timeout : Option ℕ
  pub has_cancel_event : Bool
  pub has_on_cancel : Bool

pub record Progress : Type 0 where
  pub cancel_called : Bool
  pub cancel_deadline : Option ℕ

abbrev pub at_start : Progress
at_start = record { cancel_called = false; cancel_deadline = none }

-- `cancelled_at`, `grace_now` and `timeout_now` are the clock at the three places that read it; a
-- `reply` of `none` is a status call that raises.
pub record Poll : Type 0 where
  pub event_set : Bool
  pub cancelled_at : ℕ
  pub reply : Option TicketStatusResponse
  pub grace_now : ℕ
  pub timeout_now : ℕ

-- The first test of the round: the new progress, and how often `on_cancel` is called.
unfoldable pub request_cancel : Waiting → Progress → Poll → Progress × ℕ
request_cancel w s p =
    if w.has_cancel_event && p.event_set && not s.cancel_called
    then (
      record { cancel_called = true; cancel_deadline = some (p.cancelled_at + cancel_grace) },
      if w.has_on_cancel then 1 else 0,
    )
    else (s, 0)

unfoldable pub judge_status : TicketStatus → TicketInfo → TicketStatusResponse → Option Outcome
judge_status pending i r = none
judge_status running i r = none
judge_status completed i r = some (done r)
judge_status failed i r = some (behaviour_failed i.termination_reason i.error_message)

unfoldable pub judge_info : Option TicketInfo → TicketStatusResponse → Option Outcome
unfolding judge_status
judge_info none r = none
judge_info (some i) r = judge_status i.status i r

-- What the server's answer decides.
unfoldable pub judge : Option TicketStatusResponse → Option Outcome
unfolding judge_info
judge none = some rpc_failed
judge (some r) = if r.not_found then some not_found else judge_info r.info r

unfoldable pub expired : Option ℕ → ℕ → Bool
expired none now = false
expired (some limit) now = ltb limit now

unfoldable pub overdue : Option ℕ → ℕ → ℕ → Bool
overdue none start now = false
overdue (some timeout) start now = ltb timeout (now - start)

-- What the clock decides, after the server's answer did not.
unfoldable pub judge_clock : Waiting → Progress → Poll → Option Outcome
unfolding expired overdue
judge_clock w s p =
    if expired s.cancel_deadline p.grace_now
    then some cancelled
    else if overdue w.timeout w.start p.timeout_now
    then some timed_out
    else none

unfoldable pub first_of_two : Option Outcome → Option Outcome → Option Outcome
first_of_two none b = b
first_of_two (some o) b = some o

unfoldable pub verdict : Waiting → Progress → Poll → Option Outcome
unfolding judge judge_clock first_of_two
verdict w s p = first_of_two (judge p.reply) (judge_clock w s p)

-- The loop, over the rounds that have passed: how it ends, and how often it called `on_cancel`.
unfoldable pub wait_for_ticket : Waiting → Progress → List Poll → Outcome × ℕ
unfolding request_cancel verdict
wait_for_ticket w s [] = (polling, 0)
wait_for_ticket w s (p ∷ ps) =
    let (s', calls) = request_cancel w s p in
    let rest = wait_for_ticket w s' ps in
    elim (verdict w s' p) [ none ↦ (rest.0, calls + rest.1) | some o ↦ (o, calls) ]
