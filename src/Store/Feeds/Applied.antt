-- ===== src/Store/Feeds/Applied.antt =====
-- The members that the update of a feed-filled group leaves.
use vps_scaffold_auth.Common.{
  ℕ, ◌≡◌, refl, ◌∙◌, inl, inr, Bool, true, false, not, ◌&&◌, ◌||◌, some, List, [], ◌∷◌, arith,
  if◌then◌else◌, Bool-cases, is_some, Eq, ◌==◌, Bytes, bytes_beq_iff, nat_eq, bytes_eq, pair_eq,
  contains,
}
use vps_scaffold_auth.Common.Table.{Table, lookup, insert, lookup-delete, lookup-insert}
use vps_scaffold_auth.Store.Groups.{
  Groups, keys, exists_group, seconds_of, insert_member, add_group_members, remove_group_member,
  list_group_members,
}
use vps_scaffold_auth.Store.Groups.Resolve.{contains-order_by, contains-seconds_of}
use vps_scaffold_auth.Store.Feeds.{remove_members, apply_group_sync}

pub contains-keys {ℓ κ} :
    {K : Type ℓ} {V : Type κ} ⦃e : Eq K⦄ (t : Table K V) (k : K)
    → contains (keys t) k ≡ is_some (lookup k t)
unfolding lookup
contains-keys [] k = refl
contains-keys ((j, v) ∷ t) k = ground (arith, contains-keys t k)

abbrev pub has_member : Groups → Bytes → Bytes → Bool
has_member s group email = is_some (lookup (group, email) s.members)

pub contains-list_group_members :
    (s : Groups) (group email : Bytes)
    → contains (list_group_members s group) email ≡ has_member s group email
unfolding list_group_members
contains-list_group_members s group email =
    contains-order_by (seconds_of (keys s.members) group) email
    ∙ contains-seconds_of (keys s.members) group email
    ∙ contains-keys s.members (group, email)

-- A store whose groups and includes are another's, with these memberships.
pub record HasMembers (s t : Groups) (held : Bytes → Bytes → Bool) : Type 0 where
  pub same_groups : t.groups ≡ s.groups
  pub same_includes : t.includes ≡ s.includes
  pub held_now : (group email : Bytes) → has_member t group email ≡ held group email

inserted :
    (s : Groups) (group email : Bytes) (now : ℕ)
    → exists_group s group ≡ true
    → (t : Groups) × (new : Bool) × (insert_member s group email now ≡ some (t, new))
      × HasMembers s t (λ g e. (group == g && email == e) || has_member s g e)
unfolding insert_member
inserted s group email now h = elim (Bool-cases (is_some (lookup (group, email) s.members))) [
  | inl q ↦ (
    s,
    false,
    ground arith,
    record {
      same_groups = refl;
      same_includes = refl;
      held_now = λ g e. ground (arith, bytes_beq_iff group g, bytes_beq_iff email e);
    },
  )
  | inr q ↦ (
    record s { members = insert (group, email) now s.members },
    true,
    ground arith,
    record {
      same_groups = refl;
      same_includes = refl;
      held_now = λ g e. ground (arith, lookup-insert (group, email) (g, e) now s.members);
    },
  )
]

pub added_all :
    (s : Groups) (group : Bytes) (es : List Bytes) (now : ℕ)
    → exists_group s group ≡ true
    → (t : Groups) × (new : List Bytes) × (add_group_members s group es now ≡ some (t, new))
      × HasMembers s t (λ g e. (group == g && contains es e) || has_member s g e)
unfolding add_group_members exists_group
added_all s group [] now h = (
  s,
  [],
  refl,
  record { same_groups = refl; same_includes = refl; held_now = λ g e. ground arith },
)
added_all s group (x ∷ es) now h =
    let (t, new, q, one) = inserted s group x now h in
    let (u, rest, r, ih) = added_all t group es now (rw one.same_groups h) in
    (
      u,
      (if new then x ∷ rest else rest),
      rw (q, r, add_group_members) refl,
      record {
        same_groups = ih.same_groups ∙ one.same_groups;
        same_includes = ih.same_includes ∙ one.same_includes;
        held_now = λ g e. ground (arith, ih.held_now g e, one.held_now g e);
      },
    )

pub removed_all :
    (s : Groups) (group : Bytes) (es : List Bytes)
    → HasMembers s
        (remove_members s group es)
        (λ g e. not (group == g && contains es e) && has_member s g e)
unfolding remove_members remove_group_member
removed_all s group [] = record {
  same_groups = refl;
  same_includes = refl;
  held_now = λ g e. ground arith;
}
removed_all s group (x ∷ es) =
    let ih = removed_all (remove_group_member s group x) group es in
    record {
      same_groups = ih.same_groups;
      same_includes = ih.same_includes;
      held_now = λ g e. ground (arith, ih.held_now g e, lookup-delete (group, x) (g, e) s.members);
    }

-- The update succeeds for a group that exists.
pub applied :
    (s : Groups) (group : Bytes) (add remove : List Bytes) (now : ℕ)
    → exists_group s group ≡ true
    → (t : Groups) × (apply_group_sync s group add remove now ≡ some t)
      × HasMembers s t (λ g e.
        not (group == g && contains remove e)
        && ((group == g && contains add e) || has_member s g e))
unfolding apply_group_sync
applied s group add remove now h =
    let (t, new, q, one) = added_all s group add now h in
    let two = removed_all t group remove in
    (
      remove_members t group remove,
      rw (q, apply_group_sync) refl,
      record {
        same_groups = two.same_groups ∙ one.same_groups;
        same_includes = two.same_includes ∙ one.same_includes;
        held_now = λ g e. ground (arith, two.held_now g e, one.held_now g e);
      },
    )
