-- ===== src/Rpc/Wire.antt =====
-- The messages of rpc/server.py and what the code uses of pickle, zstd, struct and repr, which are
-- parameters of the model with their documented round trips.
use r2_labs.Base.{ℕ, ◌≡◌, Bool, List, Option, some, length}
use r2_labs.Base.Text.{Text}

abbrev pub Bytes : Type 0
Bytes = List ℕ

-- An attribute that an old client's pickle lacks is `none`.
pub record RpcArgs : Type 0 where
  pub fn_name : Text
  pub fn_args : Option Bytes
  pub use_compression : Bool
  pub return_busy_time : Option Bool

pub record RpcError : Type 0 where
  pub message : Text

-- The Python objects that the two sides tell apart; `ping_reply` is the dictionary of `_ping`.
pub data Object : Type 0 where
  args : RpcArgs → Object
  error : RpcError → Object
  ping_reply : Text → Option Text → Object
  other : Bytes → Object

-- `not_pickle` is an UnpicklingError or an EOFError, `raised` any other exception.
pub data Loaded : Type 0 where
  loaded : Object → Loaded
  not_pickle raised : Loaded

pub record Wire : Type 0 where
  pub dumps : Object → Bytes
  pub loads : Bytes → Loaded
  pub compress : Bytes → Bytes
  pub decompress : Bytes → Option Bytes
  pub pack_double : ℕ → Bytes
  pub unpack_double : Bytes → ℕ
  pub repr : Text → Text
  pub loads-dumps : (x : Object) → loads (dumps x) ≡ loaded x
  pub decompress-compress : (b : Bytes) → decompress (compress b) ≡ some b
  pub length-pack_double : (t : ℕ) → length (pack_double t) ≡ 8
  pub unpack_double-pack_double : (t : ℕ) → unpack_double (pack_double t) ≡ t
