-- ===== src/Tickets/Registered.antt =====
-- A submitted behaviour stays within reach of a sweep until its task ends, and a cancelled one's
-- ticket is cancelled by the wait's next round.
use r2_labs.Base.{
  ℕ, ◌≡◌, ◌≢◌, ◌∙◌, Bool, true, false, Option, none, some, arith, if◌then◌else◌, ==_iff,
}
use r2_labs.Base.Dict.{nat_eq, lookup, lookup-insert, lookup-erase}
use r2_labs.Cancellation.{Registry, register_cancel, unregister_cancel}
use r2_labs.Tickets.Wait.{Outcome, Waiting}
use r2_labs.Tickets.Submit.{
  Stage, queued, dropped, initiating, granted, waiting, ended, Behaviour, submitted, callback_sets,
  callback_reads, task_ends, run_answered, run_stores, round_ends, polls, Step, sets, reads, drops,
  begins, answered, stores, rounds, registers, unregisters, Reach, here, next,
}

abbrev pub has_ended : Stage → Bool
has_ended queued = false
has_ended dropped = false
has_ended initiating = false
has_ended (granted t) = false
has_ended waiting = false
has_ended ended = true

module _ (token : ℕ) (w : Waiting) where
  -- The registry holds the behaviour's callback exactly until its task has ended.
  abbrev pub IsRegistered : Behaviour → Type 0
  IsRegistered b = lookup token b.registry ≡ (if has_ended b.stage then none else some token)

  register-other :
      (j : ℕ) (r : Registry ℕ) → j ≢ token → lookup token (register_cancel j j r).1 ≡ lookup token r
  unfolding register_cancel
  register-other j r h = ground (arith, lookup-insert j token j r, ==_iff j token, h)

  unregister-other :
      (j : ℕ) (r : Registry ℕ) → j ≢ token → lookup token (unregister_cancel j r) ≡ lookup token r
  unfolding unregister_cancel
  unregister-other j r h = ground (arith, lookup-erase j token r, ==_iff j token, h)

  task_ends-IsRegistered : (b : Behaviour) → IsRegistered (task_ends token b)
  unfolding task_ends unregister_cancel
  task_ends-IsRegistered b = ground (arith, lookup-erase token token b.registry, ==_iff token token)

  submitted-IsRegistered : (r : Registry ℕ) → IsRegistered (submitted token r)
  unfolding submitted register_cancel
  submitted-IsRegistered r = ground (arith, lookup-insert token token token r, ==_iff token token)

  round_ends-IsRegistered :
      (o : Option Outcome) (b : Behaviour) → IsRegistered b → IsRegistered (round_ends token o b)
  unfolding round_ends
  round_ends-IsRegistered none b h = h
  round_ends-IsRegistered (some o) b h = task_ends-IsRegistered b

  answered-IsRegistered :
      (o : Option ℕ) (b : Behaviour)
      → b.stage ≡ initiating
      → IsRegistered b
      → IsRegistered (run_answered token o b)
  unfolding run_answered
  answered-IsRegistered none b s h = task_ends-IsRegistered b
  answered-IsRegistered (some t) b s h = ground (arith, s, h)

  Step-IsRegistered : {b b' : Behaviour} → IsRegistered b → Step token w b b' → IsRegistered b'
  unfolding callback_sets callback_reads run_stores polls
  Step-IsRegistered h (sets e) = rw e h
  Step-IsRegistered h (reads others k e) = rw e h
  Step-IsRegistered h (drops s e) = rw e (ground (arith, s, h))
  Step-IsRegistered h (begins s e) = rw e (ground (arith, s, h))
  Step-IsRegistered {b} h (answered o s e) = rw e (answered-IsRegistered o b s h)
  Step-IsRegistered h (stores t s e) = rw e (ground (arith, s, h))
  Step-IsRegistered {b} h (rounds p s v e) = rw e (round_ends-IsRegistered _ _ h)
  Step-IsRegistered {b} h (registers j n e) = rw e (register-other j b.registry n ∙ h)
  Step-IsRegistered {b} h (unregisters j n e) = rw e (unregister-other j b.registry n ∙ h)

  -- In every interleaving of a submitted behaviour's task, its cancel callbacks and other behaviours
  -- that register and unregister, the registry holds the behaviour's callback exactly until its
  -- task has ended: a sweep reaches it while it runs, and for ever if its future was cancelled
  -- while it was queued.
  pub Reach-IsRegistered :
      (r : Registry ℕ) {b : Behaviour} → Reach token w (submitted token r) b → IsRegistered b
  Reach-IsRegistered r here = submitted-IsRegistered r
  Reach-IsRegistered r (next q s) = Step-IsRegistered (Reach-IsRegistered r q) s
