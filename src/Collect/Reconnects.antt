-- ===== src/Collect/Reconnects.antt =====
-- When a pedal comes back, and when it does not.
use r2_labs.Base.{
  ℕ, zero, suc, List, [], ◌∷◌, ◌+◌, ◌≡◌, ◌<◌, refl, ap, ◌∙◌, ◌⊎◌, inl, inr, true, false, none, some,
  arith,
}
use r2_labs.Collect.Pedal.{
  Opening, opened, not_found, Raised, Attempt, PedalListener, open_device, reconnect_with,
  reconnect_from, reconnect, max_reconnect_attempts, start_thread, start, stop, close_device,
}

-- An attempt that opens no device although nobody stops the listener.
abbrev pub IsFailure : Attempt → Type 0
IsFailure r =
    (r.stopped_before ≡ false)
    × (r.stopped_after ≡ false)
    × ((r.opening ≡ not_found) ⊎ (r.opening ≡ Opening.os_error))

-- The first attempt that does not fail is the one numbered `k`, and opens the device `d`.
pub record IsFirst (reads : ℕ → Attempt) (k d : ℕ) : Type 0 where
  pub before : (i : ℕ) → i < k → IsFailure (reads i)
  pub runs_before : (reads k).stopped_before ≡ false
  pub runs_after : (reads k).stopped_after ≡ false
  pub opens : (reads k).opening ≡ opened d

reconnect_from-skip :
    (n attempt : ℕ) (reads : ℕ → Attempt) (l : PedalListener)
    → IsFailure (reads attempt)
    → reconnect_from (suc n) attempt reads l ≡ reconnect_from n (suc attempt) reads l
unfolding reconnect_from reconnect_with open_device
reconnect_from-skip n attempt reads l (p, q, inl r) = rw (p, q, r)
reconnect_from-skip n attempt reads l (p, q, inr r) = rw (p, q, r)

reconnect_from-opens :
    (n k d : ℕ) (reads : ℕ → Attempt) (l : PedalListener)
    → IsFirst reads k d
    → reconnect_from (suc n) k reads l ≡ (record l { device = some d }, true)
unfolding reconnect_from reconnect_with open_device
reconnect_from-opens n k d reads l f = rw (f.runs_before, f.runs_after, f.opens)

reconnect_from-IsFirst :
    (m left attempt k d : ℕ) (reads : ℕ → Attempt) (l : PedalListener)
    → attempt + m ≡ k
    → m < left
    → IsFirst reads k d
    → reconnect_from left attempt reads l ≡ (record l { device = some d }, true)
reconnect_from-IsFirst m zero attempt k d reads l e h f = absurd (omega (arith, h))
reconnect_from-IsFirst zero (suc n) attempt k d reads l e h f =
    ap (λ i. reconnect_from (suc n) i reads l) (omega (arith, e))
    ∙ reconnect_from-opens n k d reads l f
reconnect_from-IsFirst (suc m) (suc n) attempt k d reads l e h f =
    reconnect_from-skip n attempt reads l (f.before attempt (omega (arith, e)))
    ∙ reconnect_from-IsFirst m n (suc attempt) k d reads l (omega (arith, e)) (omega (arith, h)) f

-- A reconnection whose first attempt that does not fail is one of the thirty and opens a device
-- succeeds with that device.
pub reconnect-IsFirst :
    (reads : ℕ → Attempt) (k d : ℕ) (l : PedalListener)
    → k < max_reconnect_attempts
    → IsFirst reads k d
    → reconnect reads l ≡ (record l { device = some d }, true)
unfolding reconnect
reconnect-IsFirst reads k d l h f =
    reconnect_from-IsFirst k max_reconnect_attempts 0 k d reads l (omega arith) h f

-- Calls of `start`, with what the device does at each.
abbrev pub starts : List Opening → PedalListener → PedalListener
starts [] l = l
starts (o ∷ os) l = starts os (start o l).0

starts-running : (os : List Opening) (l : PedalListener) → l.running ≡ true → starts os l ≡ l
unfolding start
starts-running [] l h = refl
starts-running (o ∷ os) l h = ground (arith, h, starts-running os l h)

start-raised :
    (o : Opening) (l : PedalListener) (x : Raised)
    → l.running ≡ false
    → (start o l).1 ≡ some x
    → (start o l).0 ≡ record l { running = true }
unfolding start start_thread open_device
start-raised (opened d) l x h e = cc
start-raised not_found l x h e = rw h refl
start-raised Opening.os_error l x h e = rw h refl

stop-running :
    (l : PedalListener)
    → l.running ≡ false
    → l.thread ≡ false
    → l.device ≡ none
    → stop (record l { running = true }) ≡ l
unfolding stop close_device
stop-running l h t d = ground (arith, h, t, d)

-- If `start` raises for a stopped listener without a thread and a device, because the device is
-- missing or cannot be opened, then after any further calls of `start`, whatever the device does at
-- each, the listener has no thread and no device and the next `start` returns at once; after a call of
-- `stop` a `start` does what it would have done without the failure.
pub start_stuck :
    (o o' : Opening) (os : List Opening) (l : PedalListener) (x : Raised)
    → l.running ≡ false
    → l.thread ≡ false
    → l.device ≡ none
    → (start o l).1 ≡ some x
    → let s = starts os (start o l).0 in
      (start o' s ≡ (s, none))
      × (s.thread ≡ false)
      × (s.device ≡ none)
      × (start o' (stop s) ≡ start o' l)
unfolding start
start_stuck o o' os l x h t d e =
    let f = start-raised o l x h e in
    let k = starts-running os (record l { running = true }) refl in
    rw (f, k) (refl, t, d, rw (stop-running l h t d))
