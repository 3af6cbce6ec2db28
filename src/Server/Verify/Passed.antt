-- ===== src/Server/Verify/Passed.antt =====
-- What a request that is passed on to its site has been through.
use vps_scaffold_auth.Common.{
  ℕ, ◌≡◌, refl, sym, ap, inl, inr, Bool, true, false, Option, none, some, List, [], ◌∷◌, arith,
  if◌then◌else◌, Bool-cases, Option-cases, ◌==◌, Bytes, nat_eq, bytes_eq, pair_eq, is_nil,
}
use vps_scaffold_auth.Authz.Access.{can_access_app}
use vps_scaffold_auth.Session.{Identity, kind_break_glass, kind_guest}
use vps_scaffold_auth.Session.Cookies.{Response}
use vps_scaffold_auth.Server.Cutoffs.{World}
use vps_scaffold_auth.Server.Tier.{
  wants_admin_step, Gateway, Directory, passkey_still_valid, renewal_role,
}
use vps_scaffold_auth.Server.Sends.{second_of}
use vps_scaffold_auth.Server.Policy.{Requirement, parse_policy}
use vps_scaffold_auth.Server.Verify.{
  current_groups, VerifyRequest, passed, to_denied, Visit, sent, renew_session_with, renewed_groups,
  admits, pass, recheck_groups, refused_at_once, check_access, with_groups_now, apply_policy,
}
use vps_scaffold_auth.Authz.Roles.{role_deny}

-- The person is the session's, the requirement admits them with the groups that the site is told,
-- and the visit is audited.
abbrev pub Granted : VerifyRequest → Identity → Requirement → List Visit → Bytes → Bytes → Type 0
Granted r id p audit email groups =
    (email ≡ id.email)
    × (can_access_app id.email groups (id.kind == kind_break_glass) (id.kind == kind_guest)
          p.domains p.groups p.allow_guests
        ≡ true)
    × (audit ≡ record { email = id.email; host = r.host; kind = id.kind } ∷ [])

passed_inv : (a b c d : Bytes) → passed a b ≡ passed c d → (a ≡ c) × (b ≡ d)
passed_inv a b c d h = (ground arith, ground arith)

pass-Granted :
    (r : VerifyRequest) (id : Identity) (p : Requirement) (c : Response) (email groups : Bytes)
    → admits id p ≡ true
    → (pass r id c).verdict ≡ passed email groups
    → Granted r id p (pass r id c).audit email groups
unfolding admits
pass-Granted r id p c email groups a h =
    let (e, s) = passed_inv id.email id.groups email groups h in (sym e, rw (sym s) a, refl)

gate-Granted :
    (r : VerifyRequest) (id : Identity) (p : Requirement) (c c' : Response) (email groups : Bytes)
    → (if admits id p then pass r id c else sent to_denied c').verdict ≡ passed email groups
    → Granted r id p (if admits id p then pass r id c else sent to_denied c').audit email groups
gate-Granted r id p c c' email groups h = elim (Bool-cases (admits id p)) [
  | inl q ↦ rw q (pass-Granted r id p c email groups q (rw q at h))
  | inr q ↦ absurd (ground arith)
]

-- Another identity with the person's address and kind.
pub Granted-moved :
    (r : VerifyRequest) (id' id : Identity) (p : Requirement) (audit : List Visit)
    (email groups : Bytes)
    → id'.email ≡ id.email
    → id'.kind ≡ id.kind
    → Granted r id' p audit email groups
    → Granted r id p audit email groups
Granted-moved r id' id p audit email groups e k (a, b, c) = rw (sym e, sym k) (a, b, c)

pub renewed_same :
    (g : Gateway) (d : Directory) (c : Response) (id id' : Identity) (now : ℕ) (o : Option Bytes)
    → (renew_session_with g d c id now o).1 ≡ some id'
    → (id' ≡ record id { groups = renewed_groups g d id now o })
      × ((renewal_role g id == role_deny) ≡ false)
      × (passkey_still_valid d id ≡ true)
unfolding renew_session_with
renewed_same g d c id id' now o h = (ground arith, ground arith, ground arith)

recheck-Granted :
    (g : Gateway) (d : Directory) (w : World) (r : VerifyRequest) (id : Identity) (p : Requirement)
    → (c : Response) (now : ℕ) (email groups : Bytes)
    → (recheck_groups g d w r id p c now).1.verdict ≡ passed email groups
    → Granted r id p (recheck_groups g d w r id p c now).1.audit email groups
unfolding recheck_groups
recheck-Granted g d w r id p c now email groups h =
    elim (Bool-cases (current_groups g d id (second_of now) == id.groups)) [
      | inl q ↦ absurd (ground arith)
      | inr q ↦
          let o : Option Bytes =
            if is_nil (current_groups g d id (second_of now))
            then none
            else some (current_groups g d id (second_of now)) in
          elim (Option-cases (renew_session_with g d c id (second_of now) o).1) [
            | inl n ↦ absurd (ground arith)
            | inr (id', n) ↦
                let (same, live, held) = renewed_same g d c id id' (second_of now) o n in
                rw (q, n, recheck_groups)
                  (Granted-moved r id' id p _ email groups (ap (λ x. x.email) same)
                    (ap (λ x. x.kind) same)
                    (gate-Granted r id' p _ _ email groups (rw (q, n, recheck_groups) at h)))
          ]
    ]

check-Granted :
    (g : Gateway) (d : Directory) (w : World) (r : VerifyRequest) (id : Identity) (p : Requirement)
    → (renewed : Bool) (c : Response) (now : ℕ) (email groups : Bytes)
    → (check_access g d w r id p renewed c now).1.verdict ≡ passed email groups
    → Granted r id p (check_access g d w r id p renewed c now).1.audit email groups
unfolding check_access
check-Granted g d w r id p renewed c now email groups h = elim (Bool-cases (admits id p)) [
  | inl q ↦ rw (q, check_access) (pass-Granted r id p c email groups q (rw (q, check_access) at h))
  | inr q ↦ elim (Bool-cases (wants_admin_step g d id p.groups (second_of now))) [
    | inl a ↦ absurd (ground arith)
    | inr a ↦ elim (Bool-cases (refused_at_once w id p renewed now)) [
      | inl b ↦ absurd (ground arith)
      | inr b ↦
          rw (q, a, b, check_access)
            (recheck-Granted g d w r id p c now email groups (rw (q, a, b, check_access) at h))
    ]
  ]
]

renewed_groups_kept :
    (g : Gateway) (d : Directory) (w : World) (r : VerifyRequest) (id : Identity) (p : Requirement)
    → (c : Response) (now : ℕ) (email groups : Bytes)
    → (check_access g d w r id p true c now).1.verdict ≡ passed email groups
    → groups ≡ id.groups
unfolding check_access refused_at_once
renewed_groups_kept g d w r id p c now email groups h = elim (Bool-cases (admits id p)) [
  | inl q ↦ sym (passed_inv id.email id.groups email groups (rw (q, check_access) at h)).1
  | inr q ↦ elim (Bool-cases (wants_admin_step g d id p.groups (second_of now))) [
    | inl a ↦ absurd (ground arith)
    | inr a ↦ absurd (ground arith)
  ]
]

with_groups_now_same :
    (g : Gateway) (d : Directory) (id : Identity)
    → ((with_groups_now g d id).email ≡ id.email) × ((with_groups_now g d id).kind ≡ id.kind)
unfolding with_groups_now
with_groups_now_same g d id = (ground arith, ground arith)

-- The header is a policy, which grants the reply.
abbrev pub Decided :
    Gateway → Directory → VerifyRequest → Identity → List Visit → Bytes → Bytes → Type 0
Decided g d r id audit email groups =
    (p : Requirement) × (parse_policy r.policy ≡ some p) × Granted r id p audit email groups

pub apply_policy-Decided :
    (g : Gateway) (d : Directory) (w : World) (r : VerifyRequest) (id : Identity) (renewed : Bool)
    → (c : Response) (now : ℕ) (email groups : Bytes)
    → (apply_policy g d w r id renewed c now).1.verdict ≡ passed email groups
    → Decided g d r id (apply_policy g d w r id renewed c now).1.audit email groups
      × (renewed ≡ true → groups ≡ (with_groups_now g d id).groups)
unfolding apply_policy
apply_policy-Decided g d w r id renewed c now email groups h =
    elim (Option-cases (parse_policy r.policy)) [
      | inl e ↦ absurd (ground arith)
      | inr (p, e) ↦
          let (same_email, same_kind) = with_groups_now_same g d id in
          let h' = rw (e, apply_policy) at h in
          (
            (
              p,
              e,
              rw (e, apply_policy)
                  (Granted-moved r (with_groups_now g d id) id p _ email groups same_email same_kind
                    (check-Granted g d w r (with_groups_now g d id) p renewed c now email groups
                      h')),
            ),
            λ q.
                renewed_groups_kept g d w r (with_groups_now g d id) p c now email groups
                  (rw q at h'),
          )
    ]
