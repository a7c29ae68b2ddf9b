-- ===== src/Version/Compared.antt =====
-- Releases are compared by their major and minor parts alone.
use r2_labs.Base.{
  ◌≡◌, ◌↔◌, refl, ap, ◌∙◌, sym, ◌⊎◌, inl, inr, Bool, true, false, [], ◌∷◌, ◌++◌, none, some, arith,
}
use mathlib.Core.Option.{some-injective}
use mathlib.Core.List.{append-nil}
use r2_labs.Base.Text.{Text, text_beq_iff}
use r2_labs.Version.{
  has, split_dot, join_minor, major_minor, known, differ, warns, version_mismatch_message,
}

split_dot-append : (a t : Text) → has 46 a ≡ false → split_dot (a ++ 46 ∷ t) ≡ (a, some t)
unfolding has split_dot
split_dot-append [] t h = refl
split_dot-append (x ∷ a) t h = ground (arith, h, split_dot-append a t)

split_dot_self : (a : Text) → has 46 a ≡ false → split_dot a ≡ (a, none)
unfolding has split_dot
split_dot_self [] h = refl
split_dot_self (x ∷ a) h = ground (arith, h, split_dot_self a)

module _ (is_digit : Text → Bool) where
  -- A clean release: major and minor, and perhaps more after a second dot.
  pub record IsRelease (v major minor : Text) : Type 0 where
    pub rest : Text
    pub parts : v ≡ major ++ (46 ∷ (minor ++ rest))
    pub ends : (rest ≡ []) ⊎ ((r : Text) × (rest ≡ 46 ∷ r))
    pub no_local : has 43 v ≡ false
    pub major_dotless : has 46 major ≡ false
    pub minor_dotless : has 46 minor ≡ false
    pub major_digits : is_digit major ≡ true
    pub minor_digits : is_digit minor ≡ true

  minor-rest :
      (minor rest : Text)
      → has 46 minor ≡ false
      → (rest ≡ []) ⊎ ((r : Text) × (rest ≡ 46 ∷ r))
      → (split_dot (minor ++ rest)).0 ≡ minor
  minor-rest minor rest h (inl e) = rw (e, append-nil, split_dot_self minor h)
  minor-rest minor rest h (inr (r, e)) = rw (e, split_dot-append minor r h)

  major_minor-release :
      (v major minor : Text)
      → IsRelease v major minor
      → major_minor is_digit v ≡ some (major ++ (46 ∷ minor))
  unfolding major_minor join_minor
  major_minor-release v major minor q =
      let split = ap split_dot q.parts ∙ split_dot-append major (minor ++ q.rest) q.major_dotless in
      rw (
        q.no_local,
        split,
        minor-rest minor q.rest q.minor_dotless q.ends,
        q.major_digits,
        q.minor_digits,
      )

  known-release :
      (v major minor : Text)
      → IsRelease v major minor
      → known is_digit (some v) ≡ some (major ++ (46 ∷ minor))
  unfolding known has major_minor
  known-release [] [] minor q = cc
  known-release [] (x ∷ major) minor q = cc
  known-release (x ∷ v) major minor q = major_minor-release (x ∷ v) major minor q

  join-injective :
      (a b c d : Text)
      → has 46 a ≡ false
      → has 46 c ≡ false
      → a ++ (46 ∷ b) ≡ c ++ (46 ∷ d)
      → (a ≡ c) × (b ≡ d)
  join-injective a b c d h k e =
      let q = sym (split_dot-append a b h) ∙ ap split_dot e ∙ split_dot-append c d k in
      (ap (λ x. x.0) q, some-injective _ _ (ap (λ x. x.1) q))

  -- Between two clean releases there is no warning exactly if their major parts and their minor
  -- parts are the same, whatever follows these.
  pub version_mismatch_message-release :
      (v major minor v' major' minor' : Text)
      → IsRelease v major minor
      → IsRelease v' major' minor'
      → (version_mismatch_message is_digit (some v) (some v') ≡ none)
        ↔ ((major ≡ major') × (minor ≡ minor'))
  unfolding version_mismatch_message warns differ
  version_mismatch_message-release v major minor v' major' minor' q q' =
      let joined = major ++ (46 ∷ minor) in
      let joined' = major' ++ (46 ∷ minor') in
      let e = known-release v major minor q in
      let e' = known-release v' major' minor' q' in
      let same = text_beq_iff joined joined' in
      let back : (joined ≡ joined') → (major ≡ major') × (minor ≡ minor') =
        join-injective major minor major' minor' q.major_dotless q'.major_dotless in
      let forth : (major ≡ major') × (minor ≡ minor') → joined ≡ joined' =
        λ (a, b). ap (λ x. x ++ (46 ∷ minor)) a ∙ ap (λ x. major' ++ (46 ∷ x)) b in
      rw (e, e') (λ h. back (same.0 (ground (arith, h))), λ h. rw (same.1 (forth h)) refl)
