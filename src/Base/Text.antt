-- ===== src/Base/Text.antt =====
-- Python's `str` as a list of code points, its UTF-8 encoding, prefix test and order.
use Prim.Native.Nat.{ℕ, ◌+◌, ◌/◌, ◌%◌, ◌<◌}
use Prim.Native.Char.{code}
use Prim.Native.String.{String}
use mathlib.Core.Path.{◌≡◌, refl}
use mathlib.Core.Logic.{◌↔◌, ◌⊎◌, inl, inr}
use mathlib.Core.Bool.{Bool, true, false, ◌&&◌}
use mathlib.Core.List.{List, [], ◌∷◌, ◌++◌, append_assoc}
use native.Mathlib.Omega.{arith}
use r2_labs.Base.Tests.{if◌then◌else◌, ◌==◌, ltb}
use r2_labs.Base.Lists.{All}
use r2_labs.Base.Dict.{Eq}

abbrev pub Text : Type 0
Text = List ℕ

-- The code points of a literal.
abbrev pub codes : String → Text
codes String.[] = []
codes (String.◌∷◌ c s) = code c ∷ codes s

unfoldable pub text_beq : Text → Text → Bool
text_beq [] [] = true
text_beq [] (y ∷ ys) = false
text_beq (x ∷ xs) [] = false
text_beq (x ∷ xs) (y ∷ ys) = x == y && text_beq xs ys

pub text_beq_iff : (a b : Text) → (text_beq a b ≡ true) ↔ (a ≡ b)
unfolding text_beq
text_beq_iff [] [] = (λ h. refl, λ h. refl)
text_beq_iff [] (y ∷ ys) = (λ h. cc, λ h. cc)
text_beq_iff (x ∷ xs) [] = (λ h. cc, λ h. cc)
text_beq_iff (x ∷ xs) (y ∷ ys) =
    (λ h. ground (arith, text_beq_iff xs ys), λ h. ground (arith, text_beq_iff xs ys))

instance abbrev pub text_eq : Eq Text
text_eq = record { beq = text_beq; beq_iff = text_beq_iff }

-- `text.startswith(p)`
unfoldable pub starts_with : Text → Text → Bool
starts_with xs [] = true
starts_with [] (p ∷ ps) = false
starts_with (x ∷ xs) (p ∷ ps) = x == p && starts_with xs ps

pub starts_with-append : (p s : Text) → starts_with (p ++ s) p ≡ true
unfolding starts_with
starts_with-append [] [] = refl
starts_with-append [] (x ∷ s) = refl
starts_with-append (x ∷ p) s = ground (arith, starts_with-append p s)

-- Two prefixes of one text are comparable.
pub starts_with_total :
    (t p q : Text)
    → starts_with t p ≡ true
    → starts_with t q ≡ true
    → (starts_with p q ≡ true) ⊎ (starts_with q p ≡ true)
unfolding starts_with
starts_with_total t [] [] h k = inl refl
starts_with_total t [] (y ∷ q) h k = inr refl
starts_with_total t (x ∷ p) [] h k = inl refl
starts_with_total [] (x ∷ p) (y ∷ q) h k = cc
starts_with_total (z ∷ t) (x ∷ p) (y ∷ q) h k = ground (arith, starts_with_total t p q)

-- `c.encode()` of one code point.
unfoldable pub encode_char : ℕ → List ℕ
encode_char c =
    if ltb c 0x80
    then c ∷ []
    else if ltb c 0x800
    then (0xc0 + c / 64) ∷ (0x80 + c % 64) ∷ []
    else if ltb c 0x10000
    then (0xe0 + c / 4096) ∷ (0x80 + c / 64 % 64) ∷ (0x80 + c % 64) ∷ []
    else (0xf0 + c / 262144) ∷ (0x80 + c / 4096 % 64) ∷ (0x80 + c / 64 % 64) ∷ (0x80 + c % 64) ∷ []

unfoldable pub encode : Text → List ℕ
encode [] = []
encode (c ∷ t) = encode_char c ++ encode t

abbrev pub IsText : Text → Type 0
IsText = All (λ c. c < 0x110000)

pub encode-append : (s t : Text) → encode (s ++ t) ≡ encode s ++ encode t
unfolding encode
encode-append [] t = refl
encode-append (c ∷ s) t = rw (encode-append s t, append_assoc)

starts_with_char :
    (c d : ℕ) (r s : List ℕ)
    → c < 0x110000
    → d < 0x110000
    → starts_with (encode_char c ++ r) (encode_char d ++ s) ≡ true
    → (c ≡ d) × (starts_with r s ≡ true)
unfolding encode_char starts_with
starts_with_char c d r s hc hd h = ground arith

empty_starts_with : (d : ℕ) (s : List ℕ) → starts_with [] (encode_char d ++ s) ≡ true → ⊥
unfolding encode_char starts_with
empty_starts_with d s h = ground arith

-- UTF-8 is prefix-free: the test on the bytes is the test on the text.
pub starts_with-encode :
    (t p : Text)
    → IsText t
    → IsText p
    → starts_with (encode t) (encode p) ≡ true
    → starts_with t p ≡ true
unfolding encode starts_with
starts_with-encode [] [] ht hp h = refl
starts_with-encode (c ∷ t) [] ht hp h = refl
starts_with-encode [] (d ∷ p) ht hp h = absurd (empty_starts_with d (encode p) h)
starts_with-encode (c ∷ t) (d ∷ p) ht hp h =
    let w = starts_with_char c d (encode t) (encode p) ht.0 hp.0 h in
    let ih = starts_with-encode t p ht.1 hp.1 w.1 in ground arith
