-- ===== src/Version.antt =====
-- version.py: `_major_minor` and `version_mismatch_message`. `str.isdigit` is a parameter.
use r2_labs.Base.{
  ℕ, Bool, true, false, not, ◌&&◌, List, [], ◌∷◌, ◌++◌, Option, none, some, if◌then◌else◌, ◌==◌,
}
use r2_labs.Base.Text.{Text, text_beq, codes}
pub mod Compared
mod Examples

-- `"c" in text`
unfoldable pub has : ℕ → Text → Bool
has c [] = false
has c (x ∷ t) = if x == c then true else has c t

-- The text before the first dot, and what follows it, if there is one.
unfoldable pub split_dot : Text → Text × Option Text
split_dot [] = ([], none)
split_dot (x ∷ t) = let rest = split_dot t in if x == 46 then ([], some t) else (x ∷ rest.0, rest.1)

unfoldable pub shown : Option Text → Text
shown none = codes "None"
shown (some v) = v

unfoldable pub message_of : Option Text → Option Text → Text
unfolding shown
message_of own backend =
    codes "r2_labs SDK version ("
    ++ (shown own
        ++ (codes ") doesn't match the robot backend ("
            ++ (shown backend
                ++ codes
                    "). Update the SDK or the backend so they're on the same release, or you may hit unexpected behaviour.")))

module _ (is_digit : Text → Bool) where
  unfoldable pub join_minor : Text → Option Text → Option Text
  unfolding split_dot
  join_minor major none = none
  join_minor major (some t) =
      let minor = (split_dot t).0 in
      if is_digit major && is_digit minor then some (major ++ (46 ∷ minor)) else none

  unfoldable pub major_minor : Text → Option Text
  unfolding has join_minor
  major_minor version =
      if has 43 version then none else join_minor (split_dot version).0 (split_dot version).1

  -- No version and an empty one are unknown.
  unfoldable pub known : Option Text → Option Text
  unfolding major_minor
  known none = none
  known (some []) = none
  known (some (x ∷ version)) = major_minor (x ∷ version)

  unfoldable pub differ : Option Text → Option Text → Bool
  differ none b = false
  differ (some a) none = false
  differ (some a) (some b) = not (text_beq a b)

  -- Whether `version_mismatch_message` warns.
  unfoldable pub warns : Option Text → Option Text → Bool
  unfolding known differ
  warns own backend = differ (known own) (known backend)

  unfoldable pub version_mismatch_message : Option Text → Option Text → Option Text
  unfolding warns
  version_mismatch_message own backend =
      if warns own backend then some (message_of own backend) else none
