-- ===== src/Cancellation.antt =====
-- sdk/cancellation.py: the process-wide registry of in-flight behaviours and its signal handler.
pub mod Laws
mod Examples
use r2_labs.Base.{
  ℕ, ◌+◌, Bool, true, false, List, [], ◌∷◌, Option, none, some, if◌then◌else◌, length,
}
use r2_labs.Base.Dict.{nat_eq, insert, erase}

-- `_callbacks`, keyed by the `id` of the callback.
abbrev pub Registry : Type 0 → Type 0
Registry C = List (ℕ × C)

module _ {C : Type 0} where
  -- The token is the identity of the callback.
  unfoldable pub register_cancel : ℕ → C → Registry C → ℕ × Registry C
  register_cancel id callback r = (id, insert id callback r)

  unfoldable pub unregister_cancel : ℕ → Registry C → Registry C
  unregister_cancel token r = erase token r

-- The loop of `cancel_all_inflight`. A call returns the state that it leaves and whether it raised;
-- an exception is logged and swallowed.
module _ {C S : Type 0} (call : C → S → S × Bool) where
  pub fire : Registry C → S → S
  fire [] s = s
  fire ((token, callback) ∷ r) s = let (s', raised) = call callback s in fire r s'

  pub cancel_all_inflight : Registry C → S → S × ℕ
  unfolding fire
  cancel_all_inflight r s = (fire r s, length r)

-- The handler that was installed before: a function of the user's, Python's own, or none.
pub data Previous : Type 0 where
  user default_int ignored default : Previous

pub data AfterSweep : Type 0 where
  calls_user returns interrupts : AfterSweep

pub after_sweep : Previous → AfterSweep
after_sweep user = calls_user
after_sweep default_int = interrupts
after_sweep ignored = returns
after_sweep default = interrupts

pub record Handlers : Type 0 where
  pub installed : Bool
  pub previous : Option Previous
  pub atexit_registered : Bool
  pub current : Previous
  pub ours : Bool
  pub sweeps_at_exit : ℕ

-- `current` is the process's handler while it is not `ours`.
pub install_handlers : Bool → Handlers → Handlers
install_handlers on_main h =
    if h.installed
    then h
    else if on_main
    then record h {
      installed = true;
      previous = some h.current;
      ours = true;
      atexit_registered = true;
      sweeps_at_exit = if h.atexit_registered then h.sweeps_at_exit else h.sweeps_at_exit + 1;
    }
    else h

-- `_handle_sigint`: the sweep first, then what the handler that was there would have done.
module _ {C S : Type 0} (call : C → S → S × Bool) where
  pub handle_sigint : Previous → Registry C → S → S × AfterSweep
  unfolding after_sweep
  handle_sigint previous r s =
      let (s', count) = cancel_all_inflight call r s in (s', after_sweep previous)
