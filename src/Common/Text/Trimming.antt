-- ===== src/Common/Text/Trimming.antt =====
-- Lemmas on lowering and trimming.
use Prim.Native.Nat.{ℕ}
use mathlib.Core.Path.{◌≡◌, refl, ap, ◌∙◌}
use mathlib.Core.Bool.{Bool, true, false}
use mathlib.Core.List.{[], ◌∷◌}
use native.Mathlib.Omega.{arith}
use vps_scaffold_auth.Common.Equality.{Bytes}
use vps_scaffold_auth.Common.Lists.{is_nil, all}
use vps_scaffold_auth.Common.Text.{is_space, lower, to_lower, trim_left, trim_right, trim_space}

is_space-lower : (c : ℕ) → is_space (lower c) ≡ is_space c
unfolding is_space lower
is_space-lower c = ground arith

lower_idem : (c : ℕ) → lower (lower c) ≡ lower c
unfolding lower
lower_idem c = ground arith

pub to_lower_idem : (s : Bytes) → to_lower (to_lower s) ≡ to_lower s
unfolding to_lower
to_lower_idem [] = refl
to_lower_idem (c ∷ s) = cc (lower_idem c, to_lower_idem s)

is_nil-to_lower : (s : Bytes) → is_nil (to_lower s) ≡ is_nil s
unfolding to_lower
is_nil-to_lower [] = refl
is_nil-to_lower (c ∷ s) = refl

trim_left-to_lower : (s : Bytes) → trim_left (to_lower s) ≡ to_lower (trim_left s)
unfolding trim_left to_lower
trim_left-to_lower [] = refl
trim_left-to_lower (c ∷ s) = ground (arith, is_space-lower c, trim_left-to_lower s)

trim_right-to_lower : (s : Bytes) → trim_right (to_lower s) ≡ to_lower (trim_right s)
unfolding trim_right to_lower
trim_right-to_lower [] = refl
trim_right-to_lower (c ∷ s) =
    ground (arith, is_space-lower c, trim_right-to_lower s, is_nil-to_lower (trim_right s))

pub trim_space-to_lower : (s : Bytes) → trim_space (to_lower s) ≡ to_lower (trim_space s)
unfolding trim_space
trim_space-to_lower s = ap trim_right (trim_left-to_lower s) ∙ trim_right-to_lower (trim_left s)

trim_right_idem : (s : Bytes) → trim_right (trim_right s) ≡ trim_right s
unfolding trim_right
trim_right_idem [] = refl
trim_right_idem (c ∷ s) = ground (arith, trim_right_idem s)

-- The text does not begin with white space.
abbrev pub starts_dark : Bytes → Bool
starts_dark [] = true
starts_dark (c ∷ s) = elim (is_space c) [ true ↦ false | false ↦ true ]

trim_left_dark : (s : Bytes) → starts_dark (trim_left s) ≡ true
unfolding trim_left
trim_left_dark [] = refl
trim_left_dark (c ∷ s) = ground (arith, trim_left_dark s)

trim_left_of_dark : (s : Bytes) → starts_dark s ≡ true → trim_left s ≡ s
unfolding trim_left
trim_left_of_dark [] h = refl
trim_left_of_dark (c ∷ s) h = ground arith

trim_right_dark : (s : Bytes) → starts_dark s ≡ true → starts_dark (trim_right s) ≡ true
unfolding trim_right
trim_right_dark [] h = refl
trim_right_dark (c ∷ s) h = ground arith

pub trim_space_idem : (s : Bytes) → trim_space (trim_space s) ≡ trim_space s
unfolding trim_space
trim_space_idem s =
    ap trim_right (
      trim_left_of_dark (trim_right (trim_left s))
        (trim_right_dark (trim_left s) (trim_left_dark s)))
    ∙ trim_right_idem (trim_left s)

-- A text without white space is its own trimming.
trim_right_of_solid :
    (s : Bytes)
    → all (λ c. elim (is_space c) [ true ↦ false | false ↦ true ]) s ≡ true
    → trim_right s ≡ s
unfolding trim_right
trim_right_of_solid [] h = refl
trim_right_of_solid (c ∷ s) h = ground (arith, trim_right_of_solid s)

pub trim_space_of_solid :
    (s : Bytes)
    → all (λ c. elim (is_space c) [ true ↦ false | false ↦ true ]) s ≡ true
    → trim_space s ≡ s
unfolding trim_space
trim_space_of_solid [] h = ground (arith, trim_left_of_dark [])
trim_space_of_solid (c ∷ s) h =
    ap trim_right (trim_left_of_dark (c ∷ s) (ground arith)) ∙ trim_right_of_solid (c ∷ s) h
