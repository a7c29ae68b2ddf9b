-- ===== src/Sdk/Scope.antt =====
-- What an arm client's side decides: which tasks the executor runs beside its own, and nothing else.
use Prim.Native.String.{String}
use r2_labs.Base.{ℕ, ◌≡◌, refl, Bool, true, false, map, Option, All, All-map}
use r2_labs.Futures.State.{ArmSelection, left, right, both, ArmExecutor, can_run, mark_busy}
use r2_labs.Sdk.Value.{Value}
use r2_labs.Sdk.Motions.{Submission}
use r2_labs.Sdk.Arm.{submissions}

abbrev pub apart : ArmSelection → ArmSelection → Bool
apart left right = true
apart right left = true
apart a b = false

can_run-mark_busy :
    {A : Type 0} (e : ArmExecutor A) (a b : ArmSelection)
    → e.left_busy ≡ false
    → e.right_busy ≡ false
    → can_run (mark_busy e a true) b ≡ apart a b
unfolding can_run mark_busy
can_run-mark_busy e left left l r = refl
can_run-mark_busy e left right l r = rw r refl
can_run-mark_busy e left both l r = refl
can_run-mark_busy e right left l r = rw l refl
can_run-mark_busy e right right l r = refl
can_run-mark_busy e right both l r = rw l refl
can_run-mark_busy e both left l r = refl
can_run-mark_busy e both right l r = refl
can_run-mark_busy e both both l r = refl

-- Every submission of an arm client asks for the client's arm.
submissions-side :
    (a : ArmSelection) (v : String → Value) (t : Option ℕ)
    → All (λ s. s.arm ≡ a) (submissions a v t)
submissions-side a v t =
    (refl, (refl, (refl, (refl, (refl, (refl, (refl, (refl, (refl, (refl, tt))))))))))

-- The executor starts a task for the arm of `u` while one for the arm of `s` runs alone.
abbrev pub Starts : {A : Type 0} → ArmExecutor A → Submission → Submission → Bool → Type 0
Starts e s u answer = can_run (mark_busy e s.arm true) u.arm ≡ answer

Starts-sides :
    {A : Type 0} (e : ArmExecutor A) (a b : ArmSelection) (s u : Submission)
    → e.left_busy ≡ false
    → e.right_busy ≡ false
    → s.arm ≡ a
    → u.arm ≡ b
    → Starts e s u (apart a b)
Starts-sides e a b s u l r p q = rw (p, q) (can_run-mark_busy e a b l r)

-- The motions of two arm clients make the same requests for the same arguments, whatever the two
-- sides are. On an executor whose arms are idle, while a motion of the one runs, every motion of the
-- other can start if one side is left and the other right, and none can otherwise.
pub submissions-apart :
    {A : Type 0} (e : ArmExecutor A)
    → e.left_busy ≡ false
    → e.right_busy ≡ false
    → (a b : ArmSelection) (v x : String → Value) (t y : Option ℕ)
    → (map (λ s. s.initiate) (submissions a v t) ≡ map (λ s. s.initiate) (submissions b v t))
      × All (λ s. All (λ u. Starts e s u (apart a b)) (submissions b x y)) (submissions a v t)
submissions-apart e l r a b v x t y = (
  refl,
  All-map
      (λ s p.
        All-map (λ u q. Starts-sides e a b s u l r p q) (submissions b x y)
          (submissions-side b x y))
      (submissions a v t) (submissions-side a v t),
)
