-- ===== src/Common/Table.antt =====
-- Tables keyed by what an `Eq` instance compares: Go's maps, and SQL tables by their primary key.
-- The order of the rows is not the program's; nothing below reads it but through `lookup`.
use vps_scaffold_auth.Common.Tests.{if◌then◌else◌, Bool-cases, is_some}
use vps_scaffold_auth.Common.Equality.{Eq, ◌==◌}
use vps_scaffold_auth.Common.Lists.{length}
use Prim.Native.Nat.{◌+◌, ◌≤◌}
use mathlib.Core.Path.{◌≡◌, refl, ap}
use mathlib.Core.Bool.{Bool, true}
use mathlib.Core.Logic.{inl, inr}
use mathlib.Core.Option.{Option, none, some}
use mathlib.Core.List.{List, [], ◌∷◌}
use native.Mathlib.Omega.{arith}

abbrev pub Table {ℓ κ} : Type ℓ → Type κ → Type (ℓ ⊔ κ)
Table K V = List (K × V)

abbrev pub keep_value {ℓ} : {V : Type ℓ} → (V → Bool) → Option V → Option V
keep_value p none = none
keep_value p (some v) = if p v then some v else none

module _ {ℓ κ} {K : Type ℓ} {V : Type κ} ⦃e : Eq K⦄ where
  unfoldable pub lookup : K → Table K V → Option V
  lookup k [] = none
  lookup k ((j, v) ∷ t) = if j == k then some v else lookup k t

  unfoldable pub delete : K → Table K V → Table K V
  delete k [] = []
  delete k ((j, v) ∷ t) = let rest = delete k t in if j == k then rest else (j, v) ∷ rest

  unfoldable pub insert : K → V → Table K V → Table K V
  unfolding delete
  insert k v t = (k, v) ∷ delete k t

  pub lookup-delete :
      (k j : K) (t : Table K V) → lookup j (delete k t) ≡ (if k == j then none else lookup j t)
  unfolding lookup delete
  lookup-delete k j [] = ground arith
  lookup-delete k j ((i, v) ∷ t) =
      ground (arith, lookup-delete k j t, e.test_iff i k, e.test_iff i j, e.test_iff k j)

  pub lookup-insert :
      (k j : K) (v : V) (t : Table K V)
      → lookup j (insert k v t) ≡ (if k == j then some v else lookup j t)
  unfolding lookup insert
  lookup-insert k j v t = ground (arith, lookup-delete k j t)

  pub length-delete-le : (k : K) (t : Table K V) → length (delete k t) ≤ length t
  unfolding delete
  length-delete-le k [] = omega arith
  length-delete-le k ((j, v) ∷ t) = ground (arith, length-delete-le k t)

  pub length-insert-le : (k : K) (v : V) (t : Table K V) → length (insert k v t) ≤ length t + 1
  unfolding insert
  length-insert-le k v t = omega (arith, length-delete-le k t)

  -- The rows whose value passes the test.
  unfoldable pub filter_values : (V → Bool) → Table K V → Table K V
  filter_values p [] = []
  filter_values p ((j, v) ∷ t) = let rest = filter_values p t in if p v then (j, v) ∷ rest else rest

  -- A key stands in at most one row.
  abbrev pub IsKeyed : Table K V → Type κ
  IsKeyed [] = Unit {κ}
  IsKeyed ((j, v) ∷ t) = (lookup j t ≡ none) × IsKeyed t

  pub lookup-filter_values :
      (p : V → Bool) (k : K) (t : Table K V)
      → IsKeyed t
      → lookup k (filter_values p t) ≡ keep_value p (lookup k t)
  unfolding lookup filter_values
  lookup-filter_values p k [] h = refl
  lookup-filter_values p k ((j, v) ∷ t) h =
      ground (arith, lookup-filter_values p k t h.1, e.test_iff j k)

  pub filter_values-IsKeyed :
      (p : V → Bool) (t : Table K V) → IsKeyed t → IsKeyed (filter_values p t)
  unfolding filter_values
  filter_values-IsKeyed p [] h = h
  filter_values-IsKeyed p ((j, v) ∷ t) h = elim (Bool-cases (p v)) [
    | inl q ↦
        rw q (
          rw (lookup-filter_values p j t h.1) (ap (keep_value p) h.0),
          filter_values-IsKeyed p t h.1,
        )
    | inr q ↦ rw q (filter_values-IsKeyed p t h.1)
  ]

  pub delete-IsKeyed : (k : K) (t : Table K V) → IsKeyed t → IsKeyed (delete k t)
  unfolding delete
  delete-IsKeyed k [] h = h
  delete-IsKeyed k ((j, v) ∷ t) h = elim (Bool-cases (j == k)) [
    | inl q ↦ rw q (delete-IsKeyed k t h.1)
    | inr q ↦ rw q (ground (arith, lookup-delete k j t), delete-IsKeyed k t h.1)
  ]

  pub insert-IsKeyed : (k : K) (v : V) (t : Table K V) → IsKeyed t → IsKeyed (insert k v t)
  unfolding insert
  insert-IsKeyed k v t h =
      (ground (arith, lookup-delete k k t, e.test_iff k k), delete-IsKeyed k t h)

  pub length-insert_present :
      (k : K) (v : V) (t : Table K V)
      → is_some (lookup k t) ≡ true
      → length (insert k v t) ≤ length t
  unfolding insert delete lookup
  length-insert_present k v [] h = cc
  length-insert_present k v ((j, w) ∷ t) h =
      ground (arith, length-delete-le k t, length-insert_present k v t)

  pub length-insert_absent :
      (k : K) (v : V) (t : Table K V) → lookup k t ≡ none → length (insert k v t) ≡ length t + 1
  unfolding insert delete lookup
  length-insert_absent k v [] h = omega arith
  length-insert_absent k v ((j, w) ∷ t) h = ground (arith, length-insert_absent k v t)

  -- The rows whose key passes the test.
  unfoldable pub filter_keys : (K → Bool) → Table K V → Table K V
  filter_keys p [] = []
  filter_keys p ((j, v) ∷ t) = let rest = filter_keys p t in if p j then (j, v) ∷ rest else rest

  pub lookup-filter_keys :
      (p : K → Bool) (k : K) (t : Table K V)
      → lookup k (filter_keys p t) ≡ (if p k then lookup k t else none)
  unfolding lookup filter_keys
  lookup-filter_keys p k [] = ground arith
  lookup-filter_keys p k ((j, v) ∷ t) = elim (Bool-cases (j == k)) [
    | inl q ↦
        let e : j ≡ k = (e.test_iff j k).0 q in ground (arith, ap p e, lookup-filter_keys p k t)
    | inr q ↦ ground (arith, lookup-filter_keys p k t)
  ]
