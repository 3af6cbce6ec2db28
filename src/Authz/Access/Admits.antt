-- ===== src/Authz/Access/Admits.antt =====
-- The decision for one application against a description of who is admitted.
use vps_scaffold_auth.Common.{
  ◌≡◌, refl, ◌≢◌, ◌↔◌, ◌⊎◌, inl, inr, Bool, true, false, not, ◌&&◌, List, [], ◌∷◌, arith,
  Bool-cases, ◌==◌, Bytes, bytes_beq_iff, nat_eq, bytes_eq, pair_eq, beq_refl, is_nil, any,
  contains,
}
use vps_scaffold_auth.Common.Text.{trim_space}
use vps_scaffold_auth.Authz.Access.{can_access_app, holds_any}
use vps_scaffold_auth.Authz.Roles.{domain_of}
use vps_scaffold_auth.Authz.Groups.{split_list, has_group}

-- A route that names at least one requirement.
abbrev pub demands : Bytes → Bytes → Bool
demands req_domains req_groups =
    not (is_nil (trim_space req_domains) && is_nil (trim_space req_groups))

-- Who a route admits: a guest where the route says so; a normal session where nothing is required;
-- a normal session whose domain is listed; and any session that holds a listed group.
pub data Admits (email groups : Bytes) (break_glass guest : Bool) (req_domains req_groups : Bytes)
    (allow_guests : Bool) : Type 0 where
  as_guest :
      guest ≡ true
      → allow_guests ≡ true
      → Admits email groups break_glass guest req_domains req_groups allow_guests
  open_door :
      guest ≡ false
      → break_glass ≡ false
      → demands req_domains req_groups ≡ false
      → Admits email groups break_glass guest req_domains req_groups allow_guests
  by_domain :
      guest ≡ false
      → break_glass ≡ false
      → domain_of email ≢ []
      → contains (split_list req_domains) (domain_of email) ≡ true
      → Admits email groups break_glass guest req_domains req_groups allow_guests
  by_group :
      (g : Bytes)
      → (guest ≡ true) ⊎ (demands req_domains req_groups ≡ true)
      → contains (split_list req_groups) g ≡ true
      → has_group groups g ≡ true
      → Admits email groups break_glass guest req_domains req_groups allow_guests

any_find :
    (p : Bytes → Bool) (l : List Bytes)
    → any p l ≡ true
    → (g : Bytes) × (contains l g ≡ true) × (p g ≡ true)
any_find p [] h = cc
any_find p (x ∷ l) h = elim (Bool-cases (p x)) [
  | inl q ↦ (x, ground (arith, beq_refl x), q)
  | inr q ↦ let (g, m, r) = any_find p l (ground arith) in (g, ground arith, r)
]

any_of :
    (p : Bytes → Bool) (l : List Bytes) (g : Bytes)
    → contains l g ≡ true
    → p g ≡ true
    → any p l ≡ true
any_of p [] g m h = cc
any_of p (x ∷ l) g m h = ground (arith, any_of p l g, bytes_beq_iff x g)

any_equal : (d : Bytes) (l : List Bytes) → any (λ want. d == want) l ≡ contains l d
any_equal d [] = refl
any_equal d (x ∷ l) = ground (arith, any_equal d l, bytes_beq_iff x d, bytes_beq_iff d x)

module _ (email groups : Bytes) (break_glass guest : Bool) (req_domains req_groups : Bytes)
    (allow_guests : Bool) where
  abbrev Admitted : Type 0
  Admitted = Admits email groups break_glass guest req_domains req_groups allow_guests

  abbrev decision : Bool
  decision = can_access_app email groups break_glass guest req_domains req_groups allow_guests

  decision-Admits : decision ≡ true → Admitted
  unfolding can_access_app
  decision-Admits h = elim (Bool-cases (holds_any groups req_groups)) [
    | inl held ↦
        let (g, m, r) = any_find (has_group groups) (split_list req_groups) held in
        elim (Bool-cases guest) [
          | inl q ↦ by_group g (inl q) m r
          | inr q ↦ elim (Bool-cases (demands req_domains req_groups)) [
            | inl d ↦ by_group g (inr d) m r
            | inr d ↦ open_door q (ground arith) d
          ]
        ]
    | inr bare ↦ elim (Bool-cases guest) [
      | inl q ↦ as_guest q (ground arith)
      | inr q ↦ elim (Bool-cases (demands req_domains req_groups)) [
        | inl d ↦
            by_domain q (ground arith) (ground arith)
              (ground (arith, any_equal (domain_of email) (split_list req_domains)))
        | inr d ↦ open_door q (ground arith) d
      ]
    ]
  ]

  Admits-decision : Admitted → decision ≡ true
  unfolding can_access_app
  Admits-decision (as_guest q a) = ground arith
  Admits-decision (open_door q b d) = ground arith
  Admits-decision (by_domain q b n m) =
      ground (arith, any_equal (domain_of email) (split_list req_domains))
  Admits-decision (by_group g s m r) =
      ground (arith, any_of (has_group groups) (split_list req_groups) g)

  -- The code admits a principal exactly in one of these cases: a guest where guests are allowed; one
  -- who is neither guest nor break-glass where the route lists nothing; one who is neither and whose
  -- domain the route lists; and the holder of a group that the route lists, where it lists something
  -- or the holder is a guest.
  pub can_access_app-Admits : (decision ≡ true) ↔ Admitted
  can_access_app-Admits = (decision-Admits, Admits-decision)
