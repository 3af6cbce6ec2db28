-- ===== src/Common/Text/Splitting.antt =====
-- Lemmas on `split` and `join`.
use Prim.Native.Nat.{ℕ}
use mathlib.Core.Path.{◌≡◌, refl, sym, ap, ◌∙◌}
use mathlib.Core.Logic.{inl, inr}
use mathlib.Core.Bool.{Bool, true, false, not, ◌&&◌}
use mathlib.Core.List.{List, [], ◌∷◌, ◌++◌}
use native.Mathlib.Omega.{arith}
use vps_scaffold_auth.Common.Tests.{nat_beq, nat_beq_iff, Bool-cases}
use vps_scaffold_auth.Common.Equality.{Bytes}
use vps_scaffold_auth.Common.Lists.{is_nil, all, keep}
use vps_scaffold_auth.Common.Text.{split_by, split, join, cons_head, fields_func}

-- The text does not hold the byte.
abbrev pub free_of : ℕ → Bytes → Bool
free_of c s = all (λ x. not (nat_beq x c)) s

split_of_free : (c : ℕ) (s : Bytes) → free_of c s ≡ true → split c s ≡ s ∷ []
unfolding split_by
split_of_free c [] h = refl
split_of_free c (x ∷ s) h = ground (arith, split_of_free c s)

split-append : (c : ℕ) (s t : Bytes) → free_of c s ≡ true → split c (s ++ c ∷ t) ≡ s ∷ split c t
unfolding split_by
split-append c [] t h = ground arith
split-append c (x ∷ s) t h = ground (arith, split-append c s t)

-- Parts that do not hold the separator come back from their join.
pub split-join :
    (c : ℕ) (p : Bytes) (ps : List Bytes)
    → all (free_of c) (p ∷ ps) ≡ true
    → split c (join c (p ∷ ps)) ≡ p ∷ ps
unfolding join
split-join c p [] h = split_of_free c p (ground arith)
split-join c p (q ∷ ps) h =
    split-append c p (join c (q ∷ ps)) (ground arith)
    ∙ ap (◌∷◌ p) (split-join c q ps (ground arith))

cons_head-full : (x : ℕ) (ps : List Bytes) → is_nil (cons_head x ps) ≡ false
cons_head-full x [] = refl
cons_head-full x (p ∷ ps) = refl

split-full : (c : ℕ) (s : Bytes) → is_nil (split c s) ≡ false
unfolding split_by
split-full c [] = refl
split-full c (x ∷ s) = elim (Bool-cases (nat_beq x c)) [
  | inl q ↦ rw q refl
  | inr q ↦ rw q (cons_head-full x (split c s))
]

join-cons_head :
    (c x : ℕ) (ps : List Bytes) → is_nil ps ≡ false → join c (cons_head x ps) ≡ x ∷ join c ps
unfolding join
join-cons_head c x [] h = absurd (ground arith)
join-cons_head c x (p ∷ []) h = refl
join-cons_head c x (p ∷ q ∷ ps) h = refl

join-empty : (c : ℕ) (ps : List Bytes) → is_nil ps ≡ false → join c ([] ∷ ps) ≡ c ∷ join c ps
unfolding join
join-empty c [] h = absurd (ground arith)
join-empty c (p ∷ ps) h = refl

-- A text comes back from its parts.
pub join-split : (c : ℕ) (s : Bytes) → join c (split c s) ≡ s
unfolding split_by join
join-split c [] = refl
join-split c (x ∷ s) = elim (Bool-cases (nat_beq x c)) [
  | inl q ↦ rw q (
      join-empty c (split c s) (split-full c s)
      ∙ ap (◌∷◌ c) (join-split c s)
      ∙ ap (λ y. y ∷ s) (sym ((nat_beq_iff x c).0 q)))
  | inr q ↦ rw q (join-cons_head c x (split c s) (split-full c s) ∙ ap (◌∷◌ x) (join-split c s))
]

cons_head_clean :
    (sep : ℕ → Bool) (x : ℕ) (ps : List Bytes)
    → sep x ≡ false
    → all (all (λ c. not (sep c))) ps ≡ true
    → all (all (λ c. not (sep c))) (cons_head x ps) ≡ true
cons_head_clean sep x [] h k = ground arith
cons_head_clean sep x (p ∷ ps) h k = ground arith

-- No part holds a separator.
split_by_clean : (sep : ℕ → Bool) (s : Bytes) → all (all (λ c. not (sep c))) (split_by sep s) ≡ true
unfolding split_by
split_by_clean sep [] = refl
split_by_clean sep (x ∷ s) = elim (Bool-cases (sep x)) [
  | inl q ↦ rw q (split_by_clean sep s)
  | inr q ↦ rw q (cons_head_clean sep x (split_by sep s) q (split_by_clean sep s))
]

keep_full :
    (p : Bytes → Bool) (ps : List Bytes)
    → all p ps ≡ true
    → all (λ s. not (is_nil s) && p s) (keep (λ s. not (is_nil s)) ps) ≡ true
keep_full p [] h = refl
keep_full p (s ∷ ps) h = ground (arith, keep_full p ps)

-- Every field is a text that is not empty and holds no separator.
pub fields_func_clean :
    (sep : ℕ → Bool) (s : Bytes)
    → all (λ f. not (is_nil f) && all (λ c. not (sep c)) f) (fields_func sep s) ≡ true
unfolding fields_func
fields_func_clean sep s = keep_full (all (λ c. not (sep c))) (split_by sep s) (split_by_clean sep s)
