-- ===== src/Rpc/Sample.antt =====
-- A concrete wire: tagged lists of numbers, with texts behind their lengths.
use r2_labs.Base.{
  ℕ, zero, suc, ◌≡◌, refl, ap, Bool, true, false, [], ◌∷◌, ◌++◌, Option, none, some, length,
}
use r2_labs.Base.Text.{text_eq}
use r2_labs.Rpc.Wire.{
  Bytes, Wire, Object, args, error, ping_reply, other, Loaded, loaded, not_pickle,
}

-- Numbers and texts behind their lengths.
abbrev pub take_text : ℕ → Bytes → Bytes
take_text zero b = []
take_text (suc n) [] = []
take_text (suc n) (x ∷ b) = x ∷ take_text n b

abbrev pub drop_text : ℕ → Bytes → Bytes
drop_text zero b = b
drop_text (suc n) [] = []
drop_text (suc n) (x ∷ b) = drop_text n b

take_text-append : (a b : Bytes) → take_text (length a) (a ++ b) ≡ a
take_text-append [] b = refl
take_text-append (x ∷ a) b = ap (◌∷◌ x) (take_text-append a b)

drop_text-append : (a b : Bytes) → drop_text (length a) (a ++ b) ≡ b
drop_text-append [] b = refl
drop_text-append (x ∷ a) b = drop_text-append a b

abbrev flag : Bool → ℕ
flag false = 0
flag true = 1

abbrev as_flag : ℕ → Bool
as_flag zero = false
as_flag (suc n) = true

abbrev option_flag : Option Bool → ℕ
option_flag none = 2
option_flag (some b) = flag b

abbrev as_option_flag : ℕ → Option Bool
as_option_flag zero = some false
as_option_flag (suc zero) = some true
as_option_flag (suc (suc n)) = none

abbrev option_text : Option Bytes → Bytes
option_text none = 0 ∷ []
option_text (some b) = 1 ∷ b

abbrev as_option_text : Bytes → Option Bytes
as_option_text [] = none
as_option_text (zero ∷ b) = none
as_option_text (suc n ∷ b) = some b

abbrev pub dumps : Object → Bytes
dumps (args a) =
    0
    ∷ flag a.use_compression
    ∷ option_flag a.return_busy_time
    ∷ length a.fn_name
    ∷ (a.fn_name ++ option_text a.fn_args)
dumps (error e) = 1 ∷ e.message
dumps (ping_reply s v) = 2 ∷ length s ∷ (s ++ option_text v)
dumps (other b) = 3 ∷ b

abbrev loads_args : Bytes → Loaded
loads_args (c ∷ r ∷ n ∷ b) = loaded (
    args (record {
      fn_name = take_text n b;
      fn_args = as_option_text (drop_text n b);
      use_compression = as_flag c;
      return_busy_time = as_option_flag r;
    }))
loads_args _ = not_pickle

abbrev loads_ping : Bytes → Loaded
loads_ping (n ∷ b) = loaded (ping_reply (take_text n b) (as_option_text (drop_text n b)))
loads_ping [] = not_pickle

abbrev loads_tag : ℕ → Bytes → Loaded
loads_tag zero b = loads_args b
loads_tag (suc zero) b = loaded (error (record { message = b }))
loads_tag (suc (suc zero)) b = loads_ping b
loads_tag (suc (suc (suc zero))) b = loaded (other b)
loads_tag (suc (suc (suc (suc n)))) b = not_pickle

abbrev pub loads : Bytes → Loaded
loads [] = not_pickle
loads (tag ∷ b) = loads_tag tag b

as_flag-flag : (b : Bool) → as_flag (flag b) ≡ b
as_flag-flag false = refl
as_flag-flag true = refl

as_option_flag-option_flag : (o : Option Bool) → as_option_flag (option_flag o) ≡ o
as_option_flag-option_flag none = refl
as_option_flag-option_flag (some false) = refl
as_option_flag-option_flag (some true) = refl

as_option_text-option_text : (o : Option Bytes) → as_option_text (option_text o) ≡ o
as_option_text-option_text none = refl
as_option_text-option_text (some b) = refl

pub loads-dumps : (x : Object) → loads (dumps x) ≡ loaded x
loads-dumps (args a) = rw (
  take_text-append, drop_text-append, as_flag-flag, as_option_flag-option_flag,
  as_option_text-option_text,
)
loads-dumps (error e) = refl
loads-dumps (ping_reply s v) = rw (take_text-append, drop_text-append, as_option_text-option_text)
loads-dumps (other b) = refl

abbrev drop_last_of : Bytes → Option Bytes
drop_last_of [] = none
drop_last_of (x ∷ b) = some b

abbrev head_or_zero : Bytes → ℕ
head_or_zero [] = 0
head_or_zero (x ∷ b) = x

abbrev pub wire : Wire
wire = record {
  dumps = dumps;
  loads = loads;
  compress = λ b. 40 ∷ b;
  decompress = drop_last_of;
  pack_double = λ t. t ∷ 0 ∷ 0 ∷ 0 ∷ 0 ∷ 0 ∷ 0 ∷ 0 ∷ [];
  unpack_double = head_or_zero;
  repr = λ t. 39 ∷ (t ++ 39 ∷ []);
  loads-dumps = loads-dumps;
  decompress-compress = λ b. refl;
  length-pack_double = λ t. refl;
  unpack_double-pack_double = λ t. refl;
}
