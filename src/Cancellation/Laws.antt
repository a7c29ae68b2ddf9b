-- ===== src/Cancellation/Laws.antt =====
-- What the registry and the sweep guarantee.
use r2_labs.Base.{
  ℕ, ◌+◌, ◌≡◌, refl, ap, Bool, true, [], ◌∷◌, ◌++◌, none, arith, length, ◌==◌, Bool-cases, inl, inr,
}
use r2_labs.Base.Dict.{nat_eq, lookup, insert, erase}
use r2_labs.Cancellation.{
  Registry, register_cancel, unregister_cancel, fire, cancel_all_inflight, Handlers,
  install_handlers,
}

module _ {C S : Type 0} where
  fire-append :
      (call : C → S → S × Bool) (r q : Registry C) (s : S)
      → fire call (r ++ q) s ≡ fire call q (fire call r s)
  unfolding fire
  fire-append call [] q s = refl
  fire-append call ((t, c) ∷ r) q s = fire-append call r q (call c s).0

  -- A callback that raises blocks none of the others: the sweep leaves the same state and the same
  -- count as if each call had made its changes and returned.
  pub cancel_all_inflight_swallows :
      (call quiet : C → S → S × Bool) (r : Registry C) (s : S)
      → ((c : C) (s : S) → (call c s).0 ≡ (quiet c s).0)
      → cancel_all_inflight call r s ≡ cancel_all_inflight quiet r s
  unfolding cancel_all_inflight fire
  cancel_all_inflight_swallows call quiet [] s h = refl
  cancel_all_inflight_swallows call quiet ((t, c) ∷ r) s h = rw (h c s) (
      ap (λ p. (p.0, length ((t, c) ∷ r)))
        (cancel_all_inflight_swallows call quiet r (quiet c s).0 h))

module _ {C : Type 0} where
  erase-insert_new :
      (id : ℕ) (c : C) (r : Registry C) → lookup id r ≡ none → erase id (insert id c r) ≡ r
  unfolding lookup insert erase
  erase-insert_new id c [] h = ground arith
  erase-insert_new id c ((j, d) ∷ r) h = elim (Bool-cases (j == id)) [
    | inl e ↦ cc (rw e at h)
    | inr e ↦ rw (e, e) (ap (◌∷◌ (j, d)) (erase-insert_new id c r (rw e at h)))
  ]

  -- A behaviour that registers and unregisters leaves the registry as it was, in order too.
  pub unregister_cancel-register_cancel :
      (id : ℕ) (c : C) (r : Registry C)
      → lookup id r ≡ none
      → (let (token, q) = register_cancel id c r in unregister_cancel token q ≡ r)
  unfolding register_cancel unregister_cancel
  unregister_cancel-register_cancel id c r h = erase-insert_new id c r h

  insert-new :
      (id : ℕ) (c : C) (r : Registry C) → lookup id r ≡ none → insert id c r ≡ r ++ (id, c) ∷ []
  unfolding lookup insert
  insert-new id c [] h = refl
  insert-new id c ((j, d) ∷ r) h = elim (Bool-cases (j == id)) [
    | inl e ↦ cc (rw e at h)
    | inr e ↦ rw e (ap (◌∷◌ (j, d)) (insert-new id c r (rw e at h)))
  ]

  length-snoc : (r : Registry C) (x : ℕ × C) → length (r ++ x ∷ []) ≡ length r + 1
  length-snoc [] x = omega arith
  length-snoc (y ∷ r) x = omega (arith, length-snoc r x)

  -- A sweep calls a newly registered callback once, after all the older ones, and counts it.
  pub cancel_all_inflight-register_cancel :
      {S : Type 0} (call : C → S → S × Bool) (id : ℕ) (c : C) (r : Registry C) (s : S)
      → lookup id r ≡ none
      → cancel_all_inflight call (register_cancel id c r).1 s
        ≡ ((call c (cancel_all_inflight call r s).0).0, (cancel_all_inflight call r s).1 + 1)
  unfolding cancel_all_inflight register_cancel
  cancel_all_inflight-register_cancel call id c r s h =
      rw (insert-new id c r h, fire-append call r ((id, c) ∷ []) s, length-snoc r (id, c))
        (unfold fire in refl)

-- Installing again changes nothing, from whichever thread and whatever the first call did on the
-- main thread; the sweep at exit is registered at most once.
pub install_handlers_idem :
    (on_main : Bool) (h : Handlers)
    → install_handlers on_main (install_handlers true h) ≡ install_handlers true h
unfolding install_handlers
install_handlers_idem on_main h = ground arith
