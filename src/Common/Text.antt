-- ===== src/Common/Text.antt =====
-- What the source uses of Go's `strings`, on ASCII texts: a text is the list of its bytes, and
-- letters and white space outside ASCII are not changed or trimmed.
pub mod Trimming
pub mod Splitting
use Prim.Native.Char.{code}
use vps_scaffold_auth.Common.Tests.{leb, nat_beq, if◌then◌else◌}
use vps_scaffold_auth.Common.Equality.{◌==◌, Bytes, nat_eq, bytes_eq}
use vps_scaffold_auth.Common.Lists.{is_nil, drop, keep, length}
use Prim.Native.Nat.{ℕ, suc, ◌+◌}
use Prim.Native.String.{String}
use mathlib.Core.Bool.{Bool, true, false, not, ◌&&◌, ◌||◌}
use mathlib.Core.Option.{Option, none, some}
use mathlib.Core.List.{List, [], ◌∷◌, ◌++◌}

abbrev pub codes : String → Bytes
codes String.[] = []
codes (String.◌∷◌ c s) = code c ∷ codes s

unfoldable pub is_space : ℕ → Bool
is_space c = nat_beq c 32 || (leb 9 c && leb c 13)

unfoldable pub lower : ℕ → ℕ
lower c = if leb 65 c && leb c 90 then c + 32 else c

-- strings.ToLower
unfoldable pub to_lower : Bytes → Bytes
unfolding lower
to_lower [] = []
to_lower (c ∷ s) = lower c ∷ to_lower s

unfoldable pub trim_left : Bytes → Bytes
unfolding is_space
trim_left [] = []
trim_left (c ∷ s) = let rest = trim_left s in if is_space c then rest else c ∷ s

unfoldable pub trim_right : Bytes → Bytes
unfolding is_space
trim_right [] = []
trim_right (c ∷ s) = let rest = trim_right s in if is_space c && is_nil rest then [] else c ∷ rest

-- strings.TrimSpace
unfoldable pub trim_space : Bytes → Bytes
unfolding trim_left trim_right
trim_space s = trim_right (trim_left s)

-- strings.LastIndexByte, `none` for -1
unfoldable pub last_index : ℕ → Bytes → Option ℕ
last_index c [] = none
last_index c (x ∷ s) =
    let later = last_index c s in
    elim later [ some i ↦ some (suc i) | none ↦ if x == c then some 0 else none ]

abbrev pub cons_head : ℕ → List Bytes → List Bytes
cons_head x [] = (x ∷ []) ∷ []
cons_head x (p ∷ ps) = (x ∷ p) ∷ ps

-- The parts between the bytes that pass the test.
unfoldable pub split_by : (ℕ → Bool) → Bytes → List Bytes
split_by sep [] = [] ∷ []
split_by sep (x ∷ s) = let rest = split_by sep s in if sep x then [] ∷ rest else cons_head x rest

-- strings.Split at one byte
abbrev pub split : ℕ → Bytes → List Bytes
split c = split_by (λ x. x == c)

-- strings.FieldsFunc
unfoldable pub fields_func : (ℕ → Bool) → Bytes → List Bytes
unfolding split_by
fields_func sep s = keep (λ p. not (is_nil p)) (split_by sep s)

-- strings.Join with one byte between
unfoldable pub join : ℕ → List Bytes → Bytes
join c [] = []
join c (p ∷ []) = p
join c (p ∷ q ∷ ps) = p ++ c ∷ join c (q ∷ ps)

-- strings.Cut at one byte: the text before the first and the text after it
unfoldable pub cut : ℕ → Bytes → Option (Bytes × Bytes)
cut c [] = none
cut c (x ∷ s) =
    let rest = cut c s in
    if x == c then some ([], s) else elim rest [ none ↦ none | some (a, b) ↦ some (x ∷ a, b) ]

unfoldable pub has_prefix : Bytes → Bytes → Bool
has_prefix s [] = true
has_prefix [] (p ∷ ps) = false
has_prefix (x ∷ s) (p ∷ ps) = x == p && has_prefix s ps

-- `s` ends in `suffix` exactly when one of its tails is `suffix`.
unfoldable pub has_suffix : Bytes → Bytes → Bool
has_suffix [] suffix = [] == suffix
has_suffix (x ∷ s) suffix = (x ∷ s) == suffix || has_suffix s suffix

abbrev pub trim_prefix : Bytes → Bytes → Bytes
trim_prefix s p = if has_prefix s p then drop (length p) s else s
