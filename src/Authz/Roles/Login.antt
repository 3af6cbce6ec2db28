-- ===== src/Authz/Roles/Login.antt =====
-- What a completed login confers.
use vps_scaffold_auth.Common.{
  ◌≡◌, ◌≢◌, ◌↔◌, ◌⊎◌, inl, inr, Bool, true, ◌&&◌, arith, Bool-cases, ◌==◌, Bytes, bytes_beq_iff,
  nat_eq, bytes_eq, pair_eq,
}
use vps_scaffold_auth.Authz.Roles.{
  Policy, role_deny, role_guest, guest_eligible, role_of, role, login_role,
}

role_never_guest : (p : Policy) (email : Bytes) → role p email ≢ role_guest
unfolding role role_of
role_never_guest p email = ground arith

-- A login confers the address's own role, or guest in place of a refusal; and it makes a guest of an address exactly when the
-- policy refuses it, the destination is on an open host and the address is eligible.
pub login_role_cases :
    (p : Policy) (email : Bytes) (open_host : Bool)
    → ((login_role p email open_host ≡ role p email)
        ⊎ ((role p email ≡ role_deny) × (login_role p email open_host ≡ role_guest)))
      × ((login_role p email open_host ≡ role_guest)
          ↔ ((role p email ≡ role_deny) × (open_host ≡ true) × (guest_eligible email ≡ true)))
unfolding login_role
login_role_cases p email open_host = (
  elim (Bool-cases (role p email == role_deny)) [
    | inl q ↦ elim (Bool-cases (open_host && guest_eligible email)) [
      | inl e ↦ inr (ground (arith, bytes_beq_iff (role p email) role_deny), ground arith)
      | inr e ↦ inl (ground (arith, bytes_beq_iff (role p email) role_deny))
    ]
    | inr q ↦ inl (ground arith)
  ],
  ground (arith, role_never_guest p email, bytes_beq_iff (role p email) role_deny),
)
