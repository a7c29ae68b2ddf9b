-- ===== src/Futures/Scan.antt =====
-- What `_pop_next_runnable` takes from the queue and what it leaves there.
use r2_labs.Base.{
  ◌≡◌, refl, ◌⊎◌, inl, inr, true, false, List, [], ◌∷◌, ◌++◌, Option, none, some, arith, All,
  if◌then◌else◌, Bool-cases, ap,
}
use r2_labs.Futures.State.{QueuedTask, ArmExecutor, can_run, is_cancelled}
use r2_labs.Futures.{scan, pop_next_runnable}

module _ {A : Type 0} where
  -- The tasks whose futures are not cancelled, in order.
  pub live : ArmExecutor A → List QueuedTask → List QueuedTask
  live e [] = []
  live e (t ∷ ts) = if is_cancelled (e.futures t.future) then live e ts else t ∷ live e ts

  abbrev pub IsPassed : ArmExecutor A → QueuedTask → Type 0
  IsPassed e t = (is_cancelled (e.futures t.future) ≡ true) ⊎ (can_run e t.requirement ≡ false)

  abbrev pub Taken : ArmExecutor A → List QueuedTask → Option QueuedTask → List QueuedTask → Type 0
  Taken e ts none left_over = All (IsPassed e) ts × (left_over ≡ live e ts)
  Taken e ts (some t) left_over =
      (before : List QueuedTask) × (after : List QueuedTask) × (ts ≡ before ++ t ∷ after)
      × All (IsPassed e) before
      × (is_cancelled (e.futures t.future) ≡ false)
      × (can_run e t.requirement ≡ true)
      × (left_over ≡ live e before ++ after)

  Taken-pass :
      (e : ArmExecutor A) (x : QueuedTask) (ts : List QueuedTask) (o : Option QueuedTask)
      (rest new_rest : List QueuedTask)
      → IsPassed e x
      → new_rest ≡ (if is_cancelled (e.futures x.future) then rest else x ∷ rest)
      → Taken e ts o rest
      → Taken e (x ∷ ts) o new_rest
  unfolding live
  Taken-pass e x ts none rest new_rest p q (a, b) = ((p, a), ground arith)
  Taken-pass e x ts (some t) rest new_rest p q (before, after, s, a, c, r, l) =
      (x ∷ before, after, ap (◌∷◌ x) s, (p, a), c, r, ground arith)

  scan-Taken : (e : ArmExecutor A) (ts : List QueuedTask) → Taken e ts (scan e ts).0 (scan e ts).1
  unfolding scan live
  scan-Taken e [] = (tt, refl)
  scan-Taken e (x ∷ ts) = elim (Bool-cases (is_cancelled (e.futures x.future))) [
    | inl c ↦ rw c (
        Taken-pass e x ts (scan e ts).0 (scan e ts).1 (scan e ts).1 (inl c) (rw c)
          (scan-Taken e ts))
    | inr c ↦ elim (Bool-cases (can_run e x.requirement)) [
      | inl r ↦ rw (c, r) ([], ts, refl, tt, c, r, refl)
      | inr r ↦
          rw (c, r)
            (Taken-pass e x ts (scan e ts).0 (scan e ts).1 (x ∷ (scan e ts).1) (inr r) (rw c)
              (scan-Taken e ts))
    ]
  ]

  -- `_pop_next_runnable` takes the first task that is not cancelled and whose arms are free; every
  -- task before it is cancelled or blocked, the cancelled ones among those are dropped, and the
  -- others keep their order. It takes nothing only if every task is cancelled or blocked.
  pub pop_next_runnable-Taken :
      (e : ArmExecutor A) → Taken e e.tasks (pop_next_runnable e).0 (pop_next_runnable e).1.tasks
  unfolding pop_next_runnable
  pop_next_runnable-Taken e = scan-Taken e e.tasks
