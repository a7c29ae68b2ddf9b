-- ===== src/Sdk/Ports.antt =====
-- sdk/rpc_api.py: `_env_port` and the ports that the module's import reads. `int` and `str` of Python
-- are parameters.
use r2_labs.Base.{
  ℕ, ◌+◌, ◌≡◌, ◌≤◌, ◌&&◌, List, [], ◌∷◌, Option, none, some, if◌then◌else◌, leb, arith,
}
use r2_labs.Base.Text.{Text}

-- What `int` makes of a text.
pub data Parsed : Type 0 where
  not_int negative : Parsed
  natural : ℕ → Parsed

-- Either the port, or one of the two ValueErrors.
pub data EnvPort : Type 0 where
  port : ℕ → EnvPort
  not_a_number out_of_range : EnvPort

-- `os.environ.get(name) or default`
unfoldable pub or_default : Option Text → Text → Text
or_default none default = default
or_default (some []) default = default
or_default (some (x ∷ t)) default = x ∷ t

unfoldable pub in_range : Parsed → EnvPort
in_range not_int = not_a_number
in_range negative = out_of_range
in_range (natural n) = if leb 1 n && leb n 65535 then port n else out_of_range

-- The variables of the other ports, all unset.
abbrev pub offsets : List (Option Text)
offsets = none ∷ none ∷ none ∷ none ∷ []

module _ (int : Text → Parsed) (str : ℕ → Text) where
  unfoldable pub env_port : Option Text → Text → EnvPort
  unfolding or_default in_range
  env_port value default = in_range (int (or_default value default))

  unfoldable pub offset_ports : ℕ → ℕ → List (Option Text) → List EnvPort
  unfolding env_port
  offset_ports base k [] = []
  offset_ports base k (value ∷ values) =
      env_port value (str (base + k)) ∷ offset_ports base (k + 1) values

  -- The query, trainer, events and camera ports, where the first one is read; the import raises
  -- for the first one that is not.
  unfoldable pub default_ports : EnvPort → List (Option Text) → List EnvPort
  unfolding offset_ports
  default_ports (port base) values = port base ∷ offset_ports base 1 values
  default_ports not_a_number values = not_a_number ∷ []
  default_ports out_of_range values = out_of_range ∷ []

  in_range-port : (n : ℕ) → 1 ≤ n → n ≤ 65535 → in_range (natural n) ≡ port n
  unfolding in_range
  in_range-port n h k = ground (arith, h, k)

  -- If `int` reads what `str` writes, RPC_PORT alone moves all five ports: where it is p, or unset
  -- and p the default, between 1 and 65531, the others are p + 1 to p + 4.
  pub default_ports-consecutive :
      ((n : ℕ) → int (str n) ≡ natural n)
      → (value : Option Text) (default : Text) (p : ℕ) → int (or_default value default) ≡ natural p
      → 1 ≤ p
      → p ≤ 65531
      → default_ports (env_port value default) offsets
        ≡ port p ∷ port (p + 1) ∷ port (p + 2) ∷ port (p + 3) ∷ port (p + 4) ∷ []
  unfolding default_ports offset_ports env_port or_default
  default_ports-consecutive read value default p h low high = rw (
    h,
    in_range-port p low (omega (arith, high)),
    read (p + 1),
    read (p + 2),
    read (p + 3),
    read (p + 4),
    in_range-port (p + 1) (omega arith) (omega (arith, high)),
    in_range-port (p + 2) (omega arith) (omega (arith, high)),
    in_range-port (p + 3) (omega arith) (omega (arith, high)),
    in_range-port (p + 4) (omega arith) (omega (arith, high)),
  )
