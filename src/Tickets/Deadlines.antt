-- ===== src/Tickets/Deadlines.antt =====
-- The wait ends in time, and asks for the cancellation once.
use r2_labs.Base.{
  ℕ, ◌+◌, ◌≡◌, ◌≢◌, ◌≤◌, ◌<◌, refl, true, false, List, [], ◌∷◌, ◌++◌, Option, none, some, arith,
  All, Option-cases, inl, inr,
}
use r2_labs.Tickets.Wait.{
  TicketStatusResponse, Outcome, polling, Waiting, Progress, at_start, Poll, cancel_grace,
  request_cancel, judge, judge_clock, first_of_two, verdict, wait_for_ticket, expired, overdue,
}

no_more_cancels :
    (w : Waiting) (ps : List Poll) (s : Progress)
    → s.cancel_called ≡ true
    → (wait_for_ticket w s ps).1 ≡ 0
unfolding wait_for_ticket request_cancel
no_more_cancels w [] s h = refl
no_more_cancels w (p ∷ ps) s h = ground (arith, no_more_cancels w ps s)

-- However often and however long the cancel event is seen set, `on_cancel` is called at most once.
pub wait_cancels_once :
    (w : Waiting) (ps : List Poll) (s : Progress) → (wait_for_ticket w s ps).1 ≤ 1
unfolding wait_for_ticket request_cancel
wait_cancels_once w [] s = omega arith
wait_cancels_once w (p ∷ ps) s =
    let s' = (request_cancel w s p).0 in
    ground (arith, wait_cancels_once w ps s', no_more_cancels w ps s')

judge_decides : (o : Option TicketStatusResponse) → judge o ≢ some polling
unfolding judge
judge_decides o h = ground arith

verdict_decides :
    (w : Waiting) (s : Progress) (p : Poll) (o : Outcome) → verdict w s p ≡ some o → o ≢ polling
unfolding verdict judge_clock first_of_two
verdict_decides w s p o h k = ground (arith, judge_decides p.reply)

overdue_verdict :
    (w : Waiting) (s : Progress) (p : Poll) (t : ℕ)
    → w.timeout ≡ some t
    → w.start + t < p.timeout_now
    → verdict w s p ≢ none
unfolding verdict judge_clock first_of_two overdue
overdue_verdict w s p t h l k = ground arith

expired_verdict :
    (w : Waiting) (s : Progress) (p : Poll) (d : ℕ)
    → s.cancel_deadline ≡ some d
    → d < p.grace_now
    → verdict w s p ≢ none
unfolding verdict judge_clock first_of_two expired
expired_verdict w s p d h l k = ground arith

-- A round that is decided ends the wait.
decided_round :
    (w : Waiting) (s : Progress) (p : Poll) (ps : List Poll)
    → verdict w (request_cancel w s p).0 p ≢ none
    → (wait_for_ticket w s (p ∷ ps)).0 ≢ polling
unfolding wait_for_ticket
decided_round w s p ps d h = elim (Option-cases (verdict w (request_cancel w s p).0 p)) [
  | inl n ↦ d n
  | inr (o, e) ↦ verdict_decides w (request_cancel w s p).0 p o e (ground (arith, h, e))
]

-- So does one that a round before it leaves open.
later_round :
    (w : Waiting) (s : Progress) (p : Poll) (ps : List Poll)
    → (wait_for_ticket w (request_cancel w s p).0 ps).0 ≢ polling
    → (wait_for_ticket w s (p ∷ ps)).0 ≢ polling
unfolding wait_for_ticket
later_round w s p ps d h = elim (Option-cases (verdict w (request_cancel w s p).0 p)) [
  | inl n ↦ d (ground (arith, h, n))
  | inr (o, e) ↦ verdict_decides w (request_cancel w s p).0 p o e (ground (arith, h, e))
]

-- With a timeout, no wait goes on past a round whose clock is beyond it.
pub wait_times_out :
    (w : Waiting) (before : List Poll) (p : Poll) (after : List Poll) (s : Progress) (t : ℕ)
    → w.timeout ≡ some t
    → w.start + t < p.timeout_now
    → (wait_for_ticket w s (before ++ p ∷ after)).0 ≢ polling
wait_times_out w [] p after s t h l =
    decided_round w s p after (overdue_verdict w (request_cancel w s p).0 p t h l)
wait_times_out w (b ∷ before) p after s t h l =
    later_round w s b (before ++ p ∷ after)
      (wait_times_out w before p after (request_cancel w s b).0 t h l)

keep_progress :
    (w : Waiting) (s : Progress) (p : Poll) → s.cancel_called ≡ true → (request_cancel w s p).0 ≡ s
unfolding request_cancel
keep_progress w s p h = ground arith

wait_expires :
    (w : Waiting) (before : List Poll) (p : Poll) (after : List Poll) (s : Progress) (d : ℕ)
    → s.cancel_called ≡ true
    → s.cancel_deadline ≡ some d
    → d < p.grace_now
    → (wait_for_ticket w s (before ++ p ∷ after)).0 ≢ polling
wait_expires w [] p after s d c h l =
    decided_round w s p after (rw (keep_progress w s p c) (expired_verdict w s p d h l))
wait_expires w (b ∷ before) p after s d c h l =
    later_round w s b (before ++ p ∷ after)
      (rw (keep_progress w s b c) (wait_expires w before p after s d c h l))

abbrev pub IsUnset : Poll → Type 0
IsUnset p = p.event_set ≡ false

unset_progress : (w : Waiting) (s : Progress) (p : Poll) → IsUnset p → (request_cancel w s p).0 ≡ s
unfolding request_cancel
unset_progress w s p h = ground arith

seen_progress :
    (w : Waiting) (p : Poll)
    → w.has_cancel_event ≡ true
    → p.event_set ≡ true
    → (request_cancel w at_start p).0
      ≡ record { cancel_called = true; cancel_deadline = some (p.cancelled_at + cancel_grace) }
unfolding request_cancel
seen_progress w p h e = ground arith

-- Once a round has seen the cancel event, no wait goes on past a later round whose clock is more
-- than the grace of 2 s beyond it, whatever the server answers and without any timeout.
pub wait_cancel_grace :
    (w : Waiting) (before : List Poll) (c : Poll) (between : List Poll) (p : Poll)
    (after : List Poll)
    → w.has_cancel_event ≡ true
    → All IsUnset before
    → c.event_set ≡ true
    → c.cancelled_at + cancel_grace < p.grace_now
    → (wait_for_ticket w at_start (before ++ c ∷ (between ++ p ∷ after))).0 ≢ polling
wait_cancel_grace w [] c between p after h u e l = later_round w at_start c (between ++ p ∷ after) (
    rw (seen_progress w c h e) (
      wait_expires w between p after
        (record { cancel_called = true; cancel_deadline = some (c.cancelled_at + cancel_grace) })
        (c.cancelled_at + cancel_grace) refl refl l))
wait_cancel_grace w (b ∷ before) c between p after h u e l =
    later_round w at_start b (before ++ c ∷ (between ++ p ∷ after)) (
      rw (unset_progress w at_start b u.0) (wait_cancel_grace w before c between p after h u.1 e l))
