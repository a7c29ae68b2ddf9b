-- ===== src/Version/Examples.antt =====
-- Versions of an SDK and of a backend.
use r2_labs.Base.{◌≡◌, ◌↔◌, refl, Bool, true, [], none, some, inl, inr}
use r2_labs.Base.Text.{Text, text_beq, codes}
use r2_labs.Version.{
  has, split_dot, join_minor, major_minor, known, differ, warns, version_mismatch_message,
}
use r2_labs.Version.Compared.{IsRelease, version_mismatch_message-release}

abbrev any_digits : Text → Bool
any_digits t = true

patch-IsRelease : IsRelease any_digits (codes "0.2.3") (codes "0") (codes "2")
unfolding has
patch-IsRelease = record {
  rest = codes ".3";
  parts = refl;
  ends = inr (codes "3", refl);
  no_local = refl;
  major_dotless = refl;
  minor_dotless = refl;
  major_digits = refl;
  minor_digits = refl;
}

plain-IsRelease : IsRelease any_digits (codes "0.3") (codes "0") (codes "3")
unfolding has
plain-IsRelease = record {
  rest = [];
  parts = refl;
  ends = inl refl;
  no_local = refl;
  major_dotless = refl;
  minor_dotless = refl;
  major_digits = refl;
  minor_digits = refl;
}

version_mismatch_message-release_example :
    (version_mismatch_message any_digits (some (codes "0.2.3")) (some (codes "0.3")) ≡ none)
    ↔ ((codes "0" ≡ codes "0") × (codes "2" ≡ codes "3"))
version_mismatch_message-release_example =
    version_mismatch_message-release any_digits (codes "0.2.3") (codes "0") (codes "2")
      (codes "0.3") (codes "0") (codes "3") patch-IsRelease plain-IsRelease

local_build :
    version_mismatch_message any_digits (some (codes "0.2+dev")) (some (codes "0.3")) ≡ none
unfolding version_mismatch_message warns known differ major_minor has join_minor split_dot text_beq
local_build = refl

two_releases : warns any_digits (some (codes "0.2.3")) (some (codes "0.3")) ≡ true
unfolding warns known differ major_minor has join_minor split_dot text_beq
two_releases = refl
