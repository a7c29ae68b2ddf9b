-- ===== src/Tickets/Heard.antt =====
-- A cancelled behaviour's ticket is cancelled by the wait's next round at the latest.
use r2_labs.Base.{
  ℕ, zero, suc, ◌≡◌, refl, ◌∙◌, Bool, true, false, List, [], ◌∷◌, Option, none, some, arith,
}
use r2_labs.Cancellation.{Registry, register_cancel, unregister_cancel}
use r2_labs.Tickets.Wait.{Outcome, Waiting, Poll, request_cancel, verdict}
use r2_labs.Tickets.Motion.{abandon}
use r2_labs.Tickets.Cancels.{is_in, is_in-abandon}
use r2_labs.Tickets.Submit.{
  Stage, queued, dropped, initiating, granted, waiting, ended, Behaviour, submitted, waits,
  callback_sets, callback_reads, task_ends, run_answered, run_stores, calls_on_cancel, round_ends,
  polls, Step, sets, reads, drops, begins, answered, stores, rounds, registers, unregisters, Reach,
  here, next,
}

is_in-abandon_kept :
    (t : ℕ) (o : Option ℕ) (calls : List ℕ)
    → is_in t calls ≡ true
    → is_in t (abandon o calls) ≡ true
unfolding abandon
is_in-abandon_kept t none calls h = h
is_in-abandon_kept t (some x) [] h = cc
is_in-abandon_kept t (some x) (y ∷ calls) h = ground (arith, h, is_in-abandon_kept t (some x) calls)

is_in-calls_on_cancel :
    (t n : ℕ) (o : Option ℕ) (calls : List ℕ)
    → is_in t calls ≡ true
    → is_in t (calls_on_cancel n o calls) ≡ true
unfolding calls_on_cancel
is_in-calls_on_cancel t zero o calls h = h
is_in-calls_on_cancel t (suc n) o calls h =
    is_in-calls_on_cancel t n o (abandon o calls) (is_in-abandon_kept t o calls h)

abbrev before_wait : Stage → Bool
before_wait queued = true
before_wait dropped = true
before_wait initiating = true
before_wait (granted t) = true
before_wait waiting = false
before_wait ended = false

record IsHeard (b : Behaviour) : Type 0 where
  early : before_wait b.stage ≡ true → b.progress.cancel_called ≡ false
  heard : (t : ℕ) → b.ticket ≡ some t → b.progress.cancel_called ≡ true → is_in t b.cancels ≡ true

module _ (token start : ℕ) (timeout : Option ℕ) where
  abbrev w : Waiting
  w = waits start timeout

  -- What a round does to the progress and to the calls.
  round_heard :
      (t : ℕ) (b : Behaviour) (p : Poll)
      → (b.progress.cancel_called ≡ true → is_in t b.cancels ≡ true)
      → (request_cancel w b.progress p).0.cancel_called ≡ true
      → is_in t (calls_on_cancel (request_cancel w b.progress p).1 (some t) b.cancels) ≡ true
  unfolding request_cancel calls_on_cancel
  round_heard t b p h k = ground (arith, h, k, is_in-abandon t b.cancels)

  round_called :
      (b : Behaviour) (p : Poll)
      → p.event_set ≡ true
      → (request_cancel w b.progress p).0.cancel_called ≡ true
  unfolding request_cancel
  round_called b p e = ground (arith, e)

  submitted-IsHeard : (r : Registry ℕ) → IsHeard (submitted token r)
  unfolding submitted
  submitted-IsHeard r = record { early = λ h. refl; heard = λ t h c. cc }

  -- Steps that leave the ticket, the progress and the calls as they are.
  IsHeard-same :
      (b b' : Behaviour)
      → IsHeard b
      → b'.ticket ≡ b.ticket
      → b'.progress ≡ b.progress
      → b'.cancels ≡ b.cancels
      → (before_wait b'.stage ≡ true → before_wait b.stage ≡ true)
      → IsHeard b'
  IsHeard-same b b' h t p c s = record {
    early = λ q. rw p (h.early (s q));
    heard = λ n q k. ground (arith, h.heard n, q, k, t, p, c);
  }

  reads-IsHeard : (others : ℕ) (b : Behaviour) → IsHeard b → IsHeard (callback_reads others b)
  unfolding callback_reads
  reads-IsHeard others b h = record {
    early = h.early;
    heard = λ n q k. is_in-abandon_kept n b.ticket b.cancels (h.heard n q k);
  }

  answered-IsHeard :
      (o : Option ℕ) (b : Behaviour)
      → b.stage ≡ initiating
      → IsHeard b
      → IsHeard (run_answered token o b)
  unfolding run_answered task_ends
  answered-IsHeard none b s h = IsHeard-same b _ h refl refl refl (λ q. cc)
  answered-IsHeard (some t) b s h = IsHeard-same b _ h refl refl refl (λ q. ground (arith, s))

  stores-IsHeard :
      (t : ℕ) (b : Behaviour) → b.stage ≡ granted t → IsHeard b → IsHeard (run_stores t b)
  unfolding run_stores
  stores-IsHeard t b s h = record {
    early = λ q. cc;
    heard = λ n q k. ground (arith, k, s, h.early);
  }

  round_ends-IsHeard :
      (o : Option Outcome) (b : Behaviour) → IsHeard b → IsHeard (round_ends token o b)
  unfolding round_ends task_ends
  round_ends-IsHeard none b h = h
  round_ends-IsHeard (some o) b h = IsHeard-same b _ h refl refl refl (λ q. cc)

  polls-IsHeard :
      (p : Poll) (b : Behaviour) → b.stage ≡ waiting → IsHeard b → IsHeard (polls token w p b)
  unfolding polls
  polls-IsHeard p b s h =
      let r = request_cancel w b.progress p in
      round_ends-IsHeard (verdict w r.0 p)
        (record b { progress = r.0; cancels = calls_on_cancel r.1 b.ticket b.cancels })
        (record {
          early = λ q. ground (arith, q, s);
          heard = λ t q k. rw q (round_heard t b p (h.heard t q) k);
        })

  Step-IsHeard : {b b' : Behaviour} → IsHeard b → Step token w b b' → IsHeard b'
  unfolding callback_sets
  Step-IsHeard {b} h (sets e) = rw e (IsHeard-same b (callback_sets b) h refl refl refl (λ q. q))
  Step-IsHeard {b} h (reads others k e) = rw e (reads-IsHeard others b h)
  Step-IsHeard {b} h (drops s e) =
      rw e (IsHeard-same b (record b { stage = dropped }) h refl refl refl (λ q. ground (arith, s)))
  Step-IsHeard {b} h (begins s e) =
      rw e
        (IsHeard-same b (record b { stage = initiating }) h refl refl refl (λ q. ground (arith, s)))
  Step-IsHeard {b} h (answered o s e) = rw e (answered-IsHeard o b s h)
  Step-IsHeard {b} h (stores t s e) = rw e (stores-IsHeard t b s h)
  Step-IsHeard {b} h (rounds p s v e) = rw e (polls-IsHeard p b s h)
  Step-IsHeard {b} h (registers j n e) = rw e (
      IsHeard-same b (record b { registry = (register_cancel j j b.registry).1 }) h refl refl refl
        (λ q. q))
  Step-IsHeard {b} h (unregisters j n e) = rw e (
      IsHeard-same b (record b { registry = unregister_cancel j b.registry }) h refl refl refl
        (λ q. q))

  all-IsHeard : (r : Registry ℕ) {b : Behaviour} → Reach token w (submitted token r) b → IsHeard b
  all-IsHeard r here = submitted-IsHeard r
  all-IsHeard r (next q s) = Step-IsHeard (all-IsHeard r q) s

  round_ends-cancels :
      (o : Option Outcome) (b : Behaviour) → (round_ends token o b).cancels ≡ b.cancels
  unfolding round_ends task_ends
  round_ends-cancels none b = refl
  round_ends-cancels (some o) b = refl

  -- In every interleaving of a submitted behaviour's task, its cancel callbacks and other behaviours,
  -- once a callback has set the event, the wait's next round, whatever the server answers in it and
  -- wherever the callback stands, leaves the ticket that the task holds among those that
  -- cancel_behaviour was called with.
  pub round_cancels :
      (r : Registry ℕ) {b : Behaviour} (t : ℕ) (p : Poll)
      → Reach token w (submitted token r) b
      → b.stage ≡ waiting
      → b.ticket ≡ some t
      → b.event_set ≡ true
      → p.event_set ≡ b.event_set
      → is_in t (polls token w p b).cancels ≡ true
  unfolding polls
  round_cancels r {b} t p q s k e v =
      let x = request_cancel w b.progress p in
      let h = all-IsHeard r q in
      rw
        (
          round_ends-cancels (verdict w x.0 p)
              (record b { progress = x.0; cancels = calls_on_cancel x.1 b.ticket b.cancels }),
          k,
        )
        (round_heard t b p (h.heard t k) (round_called b p (v ∙ e)))
