-- ===== src/Sdk/Activation.antt =====
-- sdk/client.py: `Robot.activate` and `Robot.deactivate`, which ask the robot for its mode after they
-- have set it.
use Prim.Native.String.{String}
use package.text.Mathlib.Text.{◌==◌ as str_eq}
use package.text.Mathlib.TextEquality.{eq_iff}
use mathlib.Core.Logic.{◌↔◌}
use r2_labs.Base.{◌≡◌, refl, ap, true, arith, if◌then◌else◌, Bool-cases, inl, inr}
use r2_labs.Rpc.Wire.{Bytes, Wire, Object}
use r2_labs.Rpc.Client.{BaseClient, Exchange}
use r2_labs.Sdk.Value.{flag, member, DataClass, Keywords}
use r2_labs.Sdk.ExecMode.{get_execution_mode, set_execution_mode}
use r2_labs.Sdk.Call.{Answer, got, call_raised, assertion_error, query_error, invoke}

-- Either the response of the first call, or the RuntimeError with the mode that the robot is in, or what
-- a call ended with instead of an object.
pub data Changed : Type 0 where
  response : Object → Changed
  runtime_error : String → Changed
  failed : Answer → Changed

-- `mode_of` is the name of an object's `current_mode`.
module _ (class_of : Object → String) (dumps_query : DataClass → Keywords → Bytes)
    (mode_of : Object → String) (w : Wire) where
  unfoldable pub confirmed : String → Object → Answer → Changed
  confirmed mode o (got p) =
      if str_eq (mode_of p) mode then response o else runtime_error (mode_of p)
  confirmed mode o (call_raised x) = failed (call_raised x)
  confirmed mode o assertion_error = failed assertion_error
  confirmed mode o query_error = failed query_error

  -- `peer` is what zmq makes of the second call.
  unfoldable pub confirm : String → (Bytes → Exchange) → BaseClient → Answer → BaseClient × Changed
  unfolding confirmed
  confirm mode peer c (got o) =
      let (c', a) = invoke class_of dumps_query w get_execution_mode peer c in
      (c', confirmed mode o a)
  confirm mode peer c (call_raised x) = (c, failed (call_raised x))
  confirm mode peer c assertion_error = (c, failed assertion_error)
  confirm mode peer c query_error = (c, failed query_error)

  unfoldable pub change_mode :
      String → (Bytes → Exchange) → (Bytes → Exchange) → BaseClient → BaseClient × Changed
  unfolding confirm
  change_mode mode peer later c =
      let (c', a) =
        invoke class_of dumps_query w (set_execution_mode (member mode) (flag true)) peer c in
      confirm mode later c' a

  unfoldable pub activate :
      (Bytes → Exchange) → (Bytes → Exchange) → BaseClient → BaseClient × Changed
  unfolding change_mode
  activate peer later c = change_mode "ExecutionMode.READY" peer later c

  unfoldable pub deactivate :
      (Bytes → Exchange) → (Bytes → Exchange) → BaseClient → BaseClient × Changed
  unfolding change_mode
  deactivate peer later c = change_mode "ExecutionMode.STOP" peer later c

  -- What it takes for a change to return: the first call's object, and then an object in the mode.
  abbrev pub IsConfirmed : String → Object → (Bytes → Exchange) → BaseClient → Answer → Type 0
  IsConfirmed mode o later c a =
      (a ≡ got o)
      × ((p : Object) × ((invoke class_of dumps_query w get_execution_mode later c).1 ≡ got p)
          × (mode_of p ≡ mode))

  confirmed-response :
      (mode : String) (o r : Object) (a : Answer)
      → confirmed mode o a ≡ response r
      → (o ≡ r) × ((p : Object) × (a ≡ got p) × (mode_of p ≡ mode))
  unfolding confirmed
  confirmed-response mode o r (got p) h = elim (Bool-cases (str_eq (mode_of p) mode)) [
    | inl e ↦ (ground (arith, h, e), (p, refl, (eq_iff (mode_of p) mode).0 e))
    | inr e ↦ ground (arith, h, e)
  ]
  confirmed-response mode o r (call_raised x) h = cc
  confirmed-response mode o r assertion_error h = cc
  confirmed-response mode o r query_error h = cc

  confirm-response :
      (mode : String) (r : Object) (later : Bytes → Exchange) (c : BaseClient) (a : Answer)
      → (confirm mode later c a).1 ≡ response r
      → IsConfirmed mode r later c a
  unfolding confirm
  confirm-response mode r later c (got o) h =
      let (e, rest) = confirmed-response mode o r _ h in (ap got e, rest)
  confirm-response mode r later c (call_raised x) h = cc
  confirm-response mode r later c assertion_error h = cc
  confirm-response mode r later c query_error h = cc

  confirm-IsConfirmed :
      (mode : String) (r : Object) (later : Bytes → Exchange) (c : BaseClient) (a : Answer)
      → IsConfirmed mode r later c a
      → (confirm mode later c a).1 ≡ response r
  unfolding confirm confirmed
  confirm-IsConfirmed mode r later c a (e, (p, f, g)) =
      rw (e, f) (ground (arith, (eq_iff (mode_of p) mode).1 g))

  -- A change to a mode returns the response of the call that set it exactly if that call returned
  -- it and the call after it returned an object that is in that mode.
  pub change_mode-response :
      (mode : String) (r : Object) (peer later : Bytes → Exchange) (c : BaseClient)
      → let set =
          invoke class_of dumps_query w (set_execution_mode (member mode) (flag true)) peer c in
        ((change_mode mode peer later c).1 ≡ response r) ↔ IsConfirmed mode r later set.0 set.1
  unfolding change_mode
  change_mode-response mode r peer later c =
      (confirm-response mode r later _ _, confirm-IsConfirmed mode r later _ _)
