-- ===== src/Authz/Roles/Config.antt =====
-- From the configured lists to the role of an address.
use vps_scaffold_auth.Common.{
  ◌≡◌, refl, ap, ◌∙◌, ◌≢◌, ◌↔◌, ◌⊎◌, inl, inr, true, false, not, ◌&&◌, ◌||◌, none, some, List, [],
  ◌∷◌, map, arith, Bool-cases, ◌==◌, Bytes, bytes_beq_iff, nat_eq, bytes_eq, pair_eq, contains,
}
use vps_scaffold_auth.Common.Text.{to_lower, trim_space}
use vps_scaffold_auth.Common.Text.Trimming.{trim_space-to_lower, trim_space_idem, to_lower_idem}
use vps_scaffold_auth.Authz.Roles.{
  Policy, normalize, wildcard, add_domains, add_admins, new_policy, role_admin, role_user,
  domain_part, domain_of, domain_or_nil, eligible, guest_eligible, role_of, role,
  valid_public_domain,
}

normalize_idem : (s : Bytes) → normalize (normalize s) ≡ normalize s
unfolding normalize
normalize_idem s =
    ap to_lower (trim_space-to_lower (trim_space s) ∙ ap to_lower (trim_space_idem s))
    ∙ to_lower_idem (trim_space s)

-- The role, the domain and the eligibility as a guest of an address do not depend on the case of
-- its letters or on the white space around it.
pub role-normalize :
    (p : Policy) (email : Bytes)
    → (role p (normalize email) ≡ role p email)
      × (domain_of (normalize email) ≡ domain_of email)
      × (guest_eligible (normalize email) ≡ guest_eligible email)
unfolding role domain_of guest_eligible
role-normalize p email = (
  ap (role_of p) (normalize_idem email),
  ap domain_or_nil (normalize_idem email),
  ap eligible (normalize_idem email),
)

admins-add_domains :
    (p : Policy) (ds : List Bytes) → (add_domains p ds).admin_emails ≡ p.admin_emails
unfolding add_domains
admins-add_domains p [] = refl
admins-add_domains p (d ∷ ds) = elim (Bool-cases (normalize d == wildcard)) [
  | inl q ↦ rw (q, add_domains) (admins-add_domains (record p { open_reg = true }) ds)
  | inr q ↦
      rw (q, add_domains)
        (admins-add_domains (record p { allowed_domains = normalize d ∷ p.allowed_domains }) ds)
]

domains-add_admins :
    (p : Policy) (es : List Bytes)
    → ((add_admins p es).allowed_domains ≡ p.allowed_domains)
      × ((add_admins p es).open_reg ≡ p.open_reg)
unfolding add_admins
domains-add_admins p [] = (refl, refl)
domains-add_admins p (e ∷ es) =
    domains-add_admins (record p { admin_emails = normalize e ∷ p.admin_emails }) es

contains-add_admins :
    (p : Policy) (es : List Bytes) (x : Bytes)
    → contains (add_admins p es).admin_emails x
      ≡ (contains (map normalize es) x || contains p.admin_emails x)
unfolding add_admins
contains-add_admins p [] x = refl
contains-add_admins p (e ∷ es) x =
    ground
      (arith, contains-add_admins (record p { admin_emails = normalize e ∷ p.admin_emails }) es x)

-- What the loop over the domains leaves in the policy.
record Added (p q : Policy) (ds : List Bytes) : Type 0 where
  exact :
      (x : Bytes)
      → contains q.allowed_domains x
        ≡ ((contains (map normalize ds) x && not (x == wildcard)) || contains p.allowed_domains x)
  opened : q.open_reg ≡ (contains (map normalize ds) wildcard || p.open_reg)

add_domains-Added : (p : Policy) (ds : List Bytes) → Added p (add_domains p ds) ds
unfolding add_domains
add_domains-Added p [] = record { exact = λ x. refl; opened = refl }
add_domains-Added p (d ∷ ds) = elim (Bool-cases (normalize d == wildcard)) [
  | inl q ↦
      let ih = add_domains-Added (record p { open_reg = true }) ds in
      rw (q, add_domains)
        (record {
          exact = λ x. ground (
            arith,
            ih.exact x,
            bytes_beq_iff (normalize d) x,
            bytes_beq_iff (normalize d) wildcard,
            bytes_beq_iff x wildcard,
          );
          opened = ground (arith, ih.opened);
        })
  | inr q ↦
      let ih =
        add_domains-Added (record p { allowed_domains = normalize d ∷ p.allowed_domains }) ds in
      rw (q, add_domains)
        (record {
          exact = λ x. ground (
            arith,
            ih.exact x,
            bytes_beq_iff (normalize d) x,
            bytes_beq_iff (normalize d) wildcard,
            bytes_beq_iff x wildcard,
          );
          opened = ground (arith, ih.opened);
        })
]

domain_part-nil : domain_part [] ≡ none
unfolding domain_part
domain_part-nil = refl

abbrev no_rules : Policy
no_rules = record { allowed_domains = []; admin_emails = []; open_reg = false }

module _ (ds es : List Bytes) where
  contains-admins :
      (x : Bytes) → contains (new_policy ds es).admin_emails x ≡ contains (map normalize es) x
  unfolding new_policy
  contains-admins x = ground (
    arith,
    contains-add_admins (add_domains no_rules ds) es x,
    ap (λ l. contains l x) (admins-add_domains no_rules ds),
  )

  new_policy-Added : Added no_rules (new_policy ds es) ds
  unfolding new_policy
  new_policy-Added =
      let kept = domains-add_admins (add_domains no_rules ds) es in
      let added = add_domains-Added no_rules ds in
      record {
        exact = λ x. ap (λ l. contains l x) kept.0 ∙ added.exact x;
        opened = kept.1 ∙ added.opened;
      }

  -- An address is an administrator exactly when it is not blank and is one of the configured
  -- administrators, up to case and white space.
  pub role-eq-admin :
      (email : Bytes)
      → (role (new_policy ds es) email ≡ role_admin)
        ↔ ((normalize email ≢ []) × (contains (map normalize es) (normalize email) ≡ true))
  unfolding role role_of
  role-eq-admin email = ground (arith, contains-admins (normalize email))

  -- An address that is no administrator and has a domain is a user exactly when its domain is
  -- configured, or "*" is and the domain looks like a public one.
  pub role-eq-user :
      (email d : Bytes)
      → domain_part (normalize email) ≡ some d
      → contains (map normalize es) (normalize email) ≡ false
      → (role (new_policy ds es) email ≡ role_user) ↔ (
          ((contains (map normalize ds) d ≡ true) × (d ≢ wildcard))
          ⊎ ((contains (map normalize ds) wildcard ≡ true) × (valid_public_domain d ≡ true)))
  unfolding role role_of
  role-eq-user email d has no_admin = ground (
    arith,
    contains-admins (normalize email),
    new_policy-Added.exact d,
    new_policy-Added.opened,
    bytes_beq_iff d wildcard,
    domain_part-nil,
  )
