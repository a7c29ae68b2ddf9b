-- ===== src/Base/Order.antt =====
-- Python's order on `str` and `sorted`, and relations between all pairs of a list.
use mathlib.Core.Path.{◌≡◌, refl}
use mathlib.Core.Logic.{inl, inr}
use mathlib.Core.Bool.{Bool, true, false, ◌&&◌, ◌||◌}
use mathlib.Core.List.{List, [], ◌∷◌}
use native.Mathlib.Omega.{arith}
use r2_labs.Base.Tests.{if◌then◌else◌, Bool-cases, ◌==◌, ltb}
use r2_labs.Base.Lists.{All, All-map}
use r2_labs.Base.Text.{Text, starts_with}

-- `a <= b`
unfoldable pub text_le : Text → Text → Bool
text_le [] ys = true
text_le (x ∷ xs) [] = false
text_le (x ∷ xs) (y ∷ ys) = ltb x y || (x == y && text_le xs ys)

pub text_le_total : (a b : Text) → text_le a b ≡ false → text_le b a ≡ true
unfolding text_le
text_le_total [] b h = cc
text_le_total (x ∷ a) [] h = refl
text_le_total (x ∷ a) (y ∷ b) h = ground (arith, text_le_total a b)

pub text_le_trans : (a b c : Text) → text_le a b ≡ true → text_le b c ≡ true → text_le a c ≡ true
unfolding text_le
text_le_trans [] b c h k = refl
text_le_trans (x ∷ a) [] c h k = cc
text_le_trans (x ∷ a) (y ∷ b) [] h k = cc
text_le_trans (x ∷ a) (y ∷ b) (z ∷ c) h k = ground (arith, text_le_trans a b c)

-- What lies between a text and an extension of it extends it too.
pub starts_with_between :
    (p x q : Text)
    → text_le p x ≡ true
    → text_le x q ≡ true
    → starts_with q p ≡ true
    → starts_with x p ≡ true
unfolding text_le starts_with
starts_with_between [] x q h k e = refl
starts_with_between (a ∷ p) x [] h k e = cc
starts_with_between (a ∷ p) [] (c ∷ q) h k e = cc
starts_with_between (a ∷ p) (b ∷ x) (c ∷ q) h k e = ground (arith, starts_with_between p x q)

-- A text with a prefix that is not smaller is that prefix.
pub starts_with_le :
    (p q : Text) → text_le p q ≡ true → starts_with p q ≡ true → starts_with q p ≡ true
unfolding text_le starts_with
starts_with_le [] [] h e = refl
starts_with_le [] (y ∷ q) h e = cc
starts_with_le (x ∷ p) [] h e = cc
starts_with_le (x ∷ p) (y ∷ q) h e = ground (arith, starts_with_le p q)

module _ {ℓ κ} {A : Type ℓ} (R : A → A → Type κ) where
  -- `R` holds between each element and every later one.
  abbrev pub AllPairs : List A → Type κ
  AllPairs [] = Unit
  AllPairs (x ∷ xs) = All (R x) xs × AllPairs xs

-- Insertion sort stands for `sorted`.
unfoldable pub sort_insert : Text → List Text → List Text
sort_insert x [] = x ∷ []
sort_insert x (y ∷ ys) = if text_le x y then x ∷ y ∷ ys else y ∷ sort_insert x ys

unfoldable pub sorted : List Text → List Text
unfolding sort_insert
sorted [] = []
sorted (x ∷ xs) = sort_insert x (sorted xs)

abbrev pub Le : Text → Text → Type 0
Le a b = text_le a b ≡ true

All-sort_insert {κ} :
    (P : Text → Type κ) (x : Text) (ys : List Text) → P x × All P ys → All P (sort_insert x ys)
unfolding sort_insert
All-sort_insert P x [] h = h
All-sort_insert P x (y ∷ ys) h = elim (Bool-cases (text_le x y)) [
  | inl e ↦ rw e (h.0, h.1)
  | inr e ↦ rw e (h.1.0, All-sort_insert P x ys (h.0, h.1.1))
]

All-sort_insert_inv {κ} :
    (P : Text → Type κ) (x : Text) (ys : List Text) → All P (sort_insert x ys) → P x × All P ys
unfolding sort_insert
All-sort_insert_inv P x [] h = h
All-sort_insert_inv P x (y ∷ ys) h = elim (Bool-cases (text_le x y)) [
  | inl e ↦ rw e at h
  | inr e ↦
      let k : P y × All P (sort_insert x ys) = rw e at h in
      let r = All-sort_insert_inv P x ys k.1 in (r.0, (k.0, r.1))
]

sort_insert-Le : (x : Text) (ys : List Text) → AllPairs Le ys → AllPairs Le (sort_insert x ys)
unfolding sort_insert
sort_insert-Le x [] h = (tt, tt)
sort_insert-Le x (y ∷ ys) h = elim (Bool-cases (text_le x y)) [
  | inl e ↦ rw e ((e, All-map (λ z k. text_le_trans x y z e k) ys h.0), h)
  | inr e ↦ rw e (All-sort_insert (Le y) x ys (text_le_total x y e, h.0), sort_insert-Le x ys h.1)
]

pub sorted-Le : (xs : List Text) → AllPairs Le (sorted xs)
unfolding sorted
sorted-Le [] = tt
sorted-Le (x ∷ xs) = sort_insert-Le x (sorted xs) (sorted-Le xs)

module _ {κ} (R : Text → Text → Type κ) (symmetric : (a b : Text) → R a b → R b a) where
  AllPairs-sort_insert :
      (x : Text) (ys : List Text) → All (R x) ys × AllPairs R ys → AllPairs R (sort_insert x ys)
  unfolding sort_insert
  AllPairs-sort_insert x [] h = (tt, tt)
  AllPairs-sort_insert x (y ∷ ys) h = elim (Bool-cases (text_le x y)) [
    | inl e ↦ rw e h
    | inr e ↦ rw e (
      All-sort_insert (R y) x ys (symmetric x y h.0.0, h.1.0),
      AllPairs-sort_insert x ys (h.0.1, h.1.1),
    )
  ]

  AllPairs-sort_insert_inv :
      (x : Text) (ys : List Text) → AllPairs R (sort_insert x ys) → All (R x) ys × AllPairs R ys
  unfolding sort_insert
  AllPairs-sort_insert_inv x [] h = (tt, tt)
  AllPairs-sort_insert_inv x (y ∷ ys) h = elim (Bool-cases (text_le x y)) [
    | inl e ↦ rw e at h
    | inr e ↦
        let k : All (R y) (sort_insert x ys) × AllPairs R (sort_insert x ys) = rw e at h in
        let p = All-sort_insert_inv (R y) x ys k.0 in
        let r = AllPairs-sort_insert_inv x ys k.1 in ((symmetric y x p.0, r.0), (p.1, r.1))
  ]

  All-sorted {ℓ} : (P : Text → Type ℓ) (xs : List Text) → All P xs → All P (sorted xs)
  unfolding sorted
  All-sorted P [] h = tt
  All-sorted P (x ∷ xs) h = All-sort_insert P x (sorted xs) (h.0, All-sorted P xs h.1)

  All-sorted_inv {ℓ} : (P : Text → Type ℓ) (xs : List Text) → All P (sorted xs) → All P xs
  unfolding sorted
  All-sorted_inv P [] h = tt
  All-sorted_inv P (x ∷ xs) h =
      let r = All-sort_insert_inv P x (sorted xs) h in (r.0, All-sorted_inv P xs r.1)

  -- A symmetric relation holds between all pairs before sorting exactly if it does after.
  pub AllPairs-sorted : (xs : List Text) → AllPairs R xs → AllPairs R (sorted xs)
  unfolding sorted
  AllPairs-sorted [] h = tt
  AllPairs-sorted (x ∷ xs) h =
      AllPairs-sort_insert x (sorted xs) (All-sorted (R x) xs h.0, AllPairs-sorted xs h.1)

  pub AllPairs-sorted_inv : (xs : List Text) → AllPairs R (sorted xs) → AllPairs R xs
  unfolding sorted
  AllPairs-sorted_inv [] h = tt
  AllPairs-sorted_inv (x ∷ xs) h =
      let r = AllPairs-sort_insert_inv x (sorted xs) h in
      (All-sorted_inv (R x) xs r.0, AllPairs-sorted_inv xs r.1)
