-- ===== src/Tests/Groups.antt =====
-- Groups, and the groups that a feed fills, on a small store.
use vps_scaffold_auth.Common.{
  ◌≡◌, refl, inl, inr, true, false, some, List, [], ◌∷◌, if◌then◌else◌, Bool-cases, ◌==◌, Bytes,
  bytes_beq, nat_eq, bytes_eq, pair_eq, all, contains,
}
use vps_scaffold_auth.Common.Text.{codes}
use vps_scaffold_auth.Common.Table.{lookup}
use vps_scaffold_auth.Store.Walk.{offer, offer_all, walk, closure}
use vps_scaffold_auth.Store.Groups.{
  insert_sorted, seconds_of, members_of_any, distinct, order_by, exists_group, Groups, GroupRow,
  below, groups_for_email, group_members_resolved,
}
use vps_scaffold_auth.Store.Groups.Resolve.{resolved_inverse}
use vps_scaffold_auth.Store.Groups.Cycle.{include_group, apply_each, no_cycle}

abbrev ann : Bytes
ann = codes "ann@x.org"

abbrev staff : Bytes
staff = codes "staff"

abbrev rota : Bytes
rota = codes "rota"

abbrev row : GroupRow
row = record { label = []; created_at = 1 }

-- `staff` includes `rota`, of which ann is a member.
abbrev store : Groups
store = record {
  groups = (staff, row) ∷ (rota, row) ∷ [];
  members = ((rota, ann), 1) ∷ [];
  includes = ((staff, rota), 1) ∷ [];
}

abbrev next_of : Bytes → List Bytes
next_of x = if x == staff then rota ∷ [] else []

inside : (x : Bytes) → all (contains (rota ∷ [])) (next_of x) ≡ true
unfolding bytes_beq
inside x = elim (Bool-cases (x == staff)) [ inl q ↦ rw q refl | inr q ↦ rw q refl ]

resolved : group_members_resolved store staff ≡ some (ann ∷ [])
unfolding group_members_resolved exists_group lookup bytes_beq order_by distinct members_of_any
    closure walk offer_all offer seconds_of insert_sorted
resolved = refl

resolved_inverse_example : contains (ann ∷ []) ann ≡ contains (groups_for_email store ann) staff
resolved_inverse_example = resolved_inverse store staff ann (ann ∷ []) resolved

abbrev flat : Groups
flat = record store { includes = [] }

no_cycle_example :
    contains
      (below (apply_each flat (include_group staff rota 2 ∷ include_group rota staff 3 ∷ [])) staff)
      staff
    ≡ false
unfolding below closure walk seconds_of offer_all
no_cycle_example =
    no_cycle flat (include_group staff rota 2 ∷ include_group rota staff 3 ∷ []) (λ x. refl) staff
