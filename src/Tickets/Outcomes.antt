-- ===== src/Tickets/Outcomes.antt =====
-- The outcome of a wait is what the first deciding round says.
use r2_labs.Base.{
  ◌≡◌, refl, ap, sym, subst, ◌⊎◌, Bool-cases, true, false, List, [], ◌∷◌, ◌++◌, Option, none, some,
  arith, All, Option-cases, inl, inr,
}
use mathlib.Core.Option.{some-injective}
use r2_labs.Tickets.Wait.{
  TicketInfo, TicketStatus, pending, running, completed, failed, TicketStatusResponse, Outcome,
  done, behaviour_failed, polling, Waiting, Progress, Poll, request_cancel, judge, judge_info,
  judge_status, judge_clock, first_of_two, verdict, wait_for_ticket,
}

-- What an answer must be for an outcome that rests on it. A reply of `none` is a status call that
-- raised.
abbrev pub Says : Option TicketStatusResponse → Outcome → Type 0
Says reply (done r) =
    (i : TicketInfo) × (reply ≡ some r)
    × (r.not_found ≡ false)
    × (r.info ≡ some i)
    × (i.status ≡ completed)
Says reply (behaviour_failed reason message) =
    (r : TicketStatusResponse) × (i : TicketInfo) × (reply ≡ some r)
    × (r.not_found ≡ false)
    × (r.info ≡ some i)
    × (i.status ≡ failed)
    × (i.termination_reason ≡ reason)
    × (i.error_message ≡ message)
Says reply Outcome.not_found = (r : TicketStatusResponse) × (reply ≡ some r) × (r.not_found ≡ true)
Says reply Outcome.rpc_failed = reply ≡ none
Says reply Outcome.cancelled = ⊥
Says reply Outcome.timed_out = ⊥
Says reply polling = ⊥

-- An answer about a known ticket that neither completed nor failed.
abbrev pub IsOpen : Poll → Type 0
IsOpen p =
    (r : TicketStatusResponse) × (p.reply ≡ some r)
    × (r.not_found ≡ false)
    × ((r.info ≡ none)
        ⊎ ((i : TicketInfo) × (r.info ≡ some i) × ((i.status ≡ pending) ⊎ (i.status ≡ running))))

-- A wait that ended by a server's answer.
pub record EndedBy (ps : List Poll) (o : Outcome) : Type 0 where
  pub before : List Poll
  pub last : Poll
  pub after : List Poll
  pub split : ps ≡ before ++ last ∷ after
  pub open_before : All IsOpen before
  pub said : Says last.reply o

abbrev pub FromServer : Outcome → Type 0
FromServer (done r) = Unit
FromServer (behaviour_failed r m) = Unit
FromServer Outcome.not_found = Unit
FromServer Outcome.rpc_failed = Unit
FromServer Outcome.cancelled = ⊥
FromServer Outcome.timed_out = ⊥
FromServer polling = ⊥

judge_status-Says :
    (t : TicketStatus) (i : TicketInfo) (r : TicketStatusResponse) (o : Outcome)
    → i.status ≡ t
    → r.not_found ≡ false
    → r.info ≡ some i
    → judge_status t i r ≡ some o
    → Says (some r) o
unfolding judge_status
judge_status-Says pending i r o e n k h = cc
judge_status-Says running i r o e n k h = cc
judge_status-Says completed i r o e n k h =
    subst (Says (some r)) (some-injective _ _ h) (i, refl, n, k, e)
judge_status-Says failed i r o e n k h =
    subst (Says (some r)) (some-injective _ _ h) (r, i, refl, n, k, e, refl, refl)

judge_info-Says :
    (info : Option TicketInfo) (r : TicketStatusResponse) (o : Outcome)
    → r.info ≡ info
    → r.not_found ≡ false
    → judge_info info r ≡ some o
    → Says (some r) o
unfolding judge_info
judge_info-Says none r o k n h = cc
judge_info-Says (some i) r o k n h = judge_status-Says i.status i r o refl n k h

judge-Says :
    (reply : Option TicketStatusResponse) (o : Outcome) → judge reply ≡ some o → Says reply o
unfolding judge
judge-Says none o h = subst (Says none) (some-injective _ _ h) refl
judge-Says (some r) o h = elim (Bool-cases r.not_found) [
  | inl e ↦
      let k : some Outcome.not_found ≡ some o = rw e at h in
      subst (Says (some r)) (some-injective _ _ k) (r, refl, e)
  | inr e ↦ judge_info-Says r.info r o refl e (ground (arith, h, e))
]

verdict-judge :
    (w : Waiting) (s : Progress) (p : Poll) (o : Outcome)
    → FromServer o
    → verdict w s p ≡ some o
    → judge p.reply ≡ some o
unfolding verdict judge_clock first_of_two
verdict-judge w s p o f h = ground arith

verdict-IsOpen : (w : Waiting) (s : Progress) (p : Poll) → verdict w s p ≡ none → IsOpen p
unfolding verdict first_of_two judge judge_info judge_status
verdict-IsOpen w s p h = ground arith

-- If a wait returns a status, or raises for a failed or an unknown ticket or a failed status call,
-- then one round's answer says exactly that, and every answer before it was about a known ticket
-- that had neither completed nor failed.
pub wait_reports :
    (w : Waiting) (ps : List Poll) (s : Progress) (o : Outcome)
    → FromServer o
    → (wait_for_ticket w s ps).0 ≡ o
    → EndedBy ps o
unfolding wait_for_ticket
wait_reports w [] s o f h = absurd (subst FromServer (sym h) f)
wait_reports w (p ∷ ps) s o f h =
    let s' = (request_cancel w s p).0 in
    elim (Option-cases (verdict w s' p)) [
      | inl n ↦
          let ih = wait_reports w ps s' o f (ground (arith, h, n)) in
          record {
            before = p ∷ ih.before;
            last = ih.last;
            after = ih.after;
            split = ap (◌∷◌ p) ih.split;
            open_before = (verdict-IsOpen w s' p n, ih.open_before);
            said = ih.said;
          }
      | inr (x, e) ↦ record {
        before = [];
        last = p;
        after = ps;
        split = refl;
        open_before = tt;
        said = judge-Says p.reply o (verdict-judge w s' p o f (ground (arith, h, e)));
      }
    ]
