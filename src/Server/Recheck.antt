-- ===== src/Server/Recheck.antt =====
-- internal/server/group_recheck.go: which refused snapshots the database has lately agreed with.
-- Times are nanoseconds.
use vps_scaffold_auth.Common.{
  ℕ, ◌+◌, ◌≤◌, ◌≡◌, refl, ap, inl, inr, Bool, true, false, ◌&&◌, none, some, List, [], ◌∷◌, ◌++◌,
  arith, ltb, leb, nat_beq, if◌then◌else◌, Bool-cases, ◌==◌, Bytes, nat_eq, bytes_eq, pair_eq,
  length, all,
}
use vps_scaffold_auth.Common.Table.{
  Table, lookup, insert, lookup-insert, filter_values, IsKeyed, lookup-filter_values,
}

abbrev pub group_recheck_ttl : ℕ
group_recheck_ttl = 30000000000

abbrev pub recheck_limit : ℕ
recheck_limit = 1024

pub record GroupRecheck : Type 0 where
  pub until : Table Bytes ℕ
  pub gen : ℕ

unfoldable pub new_group_recheck : GroupRecheck
new_group_recheck = record { until = []; gen = 0 }

unfoldable pub group_recheck_key : Bytes → Bytes → Bytes
group_recheck_key email groups = email ++ 0 ∷ groups

unfoldable pub fresh : GroupRecheck → Bytes → Bytes → ℕ → Bool
fresh g email groups now = elim (lookup (group_recheck_key email groups) g.until) [
  | none ↦ false
  | some t ↦ ltb now t
]

unfoldable pub forget_all : GroupRecheck → GroupRecheck
forget_all g = record { until = []; gen = g.gen + 1 }

-- the sweep of `confirm`
unfoldable pub swept : GroupRecheck → ℕ → Table Bytes ℕ
swept g now =
    if leb recheck_limit (length g.until) then filter_values (λ t. ltb now t) g.until else g.until

unfoldable pub confirm : GroupRecheck → Bytes → Bytes → ℕ → ℕ → GroupRecheck
confirm g email groups now gen =
    if nat_beq gen g.gen
    then record g {
      until = insert (group_recheck_key email groups) (now + group_recheck_ttl) (swept g now);
    }
    else g

lookup-swept :
    (g : GroupRecheck) (k : Bytes) (now t : ℕ)
    → IsKeyed g.until
    → now ≤ t
    → elim (lookup k (swept g now)) [ none ↦ false | some u ↦ ltb t u ]
      ≡ elim (lookup k g.until) [ none ↦ false | some u ↦ ltb t u ]
unfolding swept
lookup-swept g k now t keyed h =
    ground (arith, lookup-filter_values (λ u. ltb now u) k g.until keyed)

-- In a table with one row a key, after `confirm` at one time, at that time or later, the confirmed snapshot is fresh for
-- thirty seconds if no membership change came between the reading and the recording, and nothing
-- else has changed.
pub fresh-confirm :
    (g : GroupRecheck) (email groups other theirs : Bytes) (now gen t : ℕ)
    → IsKeyed g.until
    → now ≤ t
    → fresh (confirm g email groups now gen) other theirs t ≡ (
        if nat_beq gen g.gen && (group_recheck_key email groups == group_recheck_key other theirs)
        then ltb t (now + group_recheck_ttl)
        else fresh g other theirs t)
unfolding fresh confirm
fresh-confirm g email groups other theirs now gen t keyed h = ground (
  arith,
  lookup-swept g (group_recheck_key other theirs) now t keyed h,
  lookup-insert (group_recheck_key email groups) (group_recheck_key other theirs)
      (now + group_recheck_ttl) (swept g now),
)

-- one request's result, read at the generation `gen`
pub record Confirmation : Type 0 where
  pub email : Bytes
  pub groups : Bytes
  pub now : ℕ
  pub gen : ℕ

unfoldable pub confirm_each : GroupRecheck → List Confirmation → GroupRecheck
confirm_each g [] = g
confirm_each g (c ∷ cs) = confirm_each (confirm g c.email c.groups c.now c.gen) cs

confirm-late :
    (g : GroupRecheck) (cs : List Confirmation)
    → all (λ c. ltb c.gen g.gen) cs ≡ true
    → confirm_each g cs ≡ g
unfolding confirm_each confirm
confirm-late g [] h = refl
confirm-late g (c ∷ cs) h = elim (Bool-cases (nat_beq c.gen g.gen)) [
  | inl q ↦ ground arith
  | inr q ↦ rw (q, confirm) (confirm-late g cs (ground arith))
]

all-later :
    (n : ℕ) (cs : List Confirmation)
    → all (λ c. leb c.gen n) cs ≡ true
    → all (λ c. ltb c.gen (n + 1)) cs ≡ true
all-later n [] h = refl
all-later n (c ∷ cs) h = ground (arith, all-later n cs)

-- After a membership change, whatever requests that read the database before it go on to record,
-- no snapshot is fresh.
pub late_confirmations_forgotten :
    (g : GroupRecheck) (cs : List Confirmation) (email groups : Bytes) (t : ℕ)
    → all (λ c. leb c.gen g.gen) cs ≡ true
    → fresh (confirm_each (forget_all g) cs) email groups t ≡ false
unfolding fresh forget_all lookup
late_confirmations_forgotten g cs email groups t h =
    ap (λ x. fresh x email groups t) (confirm-late (forget_all g) cs (all-later g.gen cs h))
