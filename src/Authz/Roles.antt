-- ===== src/Authz/Roles.antt =====
-- internal/authz/authz.go: roles, `Policy`, `NewPolicy`, `Role`, `LoginRole` and the tests of an
-- address. The two maps of `Policy` hold no values, so they are lists of their keys.
pub mod Config
pub mod Login
use vps_scaffold_auth.Common.{
  ℕ, zero, suc, ◌+◌, ◌-◌, ◌*◌, ◌/◌, ◌%◌, ◌≤◌, ◌<◌, max, String, ◌≡◌, refl, sym, ap, ◌∙◌, ◌≢◌, ◌↔◌,
  ◌⊎◌, inl, inr, Bool, true, false, not, ◌&&◌, ◌||◌, Option, none, some, List, [], ◌∷◌, ◌++◌, map,
  arith, ltb, leb, nat_beq, if◌then◌else◌, nat_beq_iff, ltb→lt, leb→le, Bool-cases, Option-cases,
  is_some, Eq, ◌==◌, Bytes, bytes_beq, bytes_beq_iff, pair_beq, nat_eq, bytes_eq, pair_eq, beq_refl,
  length, is_nil, drop, any, all, keep, count_if, contains, any-append, all-append, length-append,
  contains-append, contains-keep, all-contains,
}
use vps_scaffold_auth.Common.Text.{
  codes, is_space, lower, to_lower, trim_left, trim_right, trim_space, last_index, cons_head,
  split_by, split, fields_func, join, cut, has_prefix, has_suffix, trim_prefix,
}
use vps_scaffold_auth.Common.Table.{
  Table, lookup, delete, insert, lookup-delete, lookup-insert, length-delete-le, length-insert-le,
  keep_value, filter_values, IsKeyed, lookup-filter_values, filter_values-IsKeyed, insert-IsKeyed,
  delete-IsKeyed, length-insert_present, length-insert_absent, filter_keys, lookup-filter_keys,
}

abbrev pub role_admin : Bytes
role_admin = codes "admin"

abbrev pub role_user : Bytes
role_user = codes "user"

abbrev pub role_deny : Bytes
role_deny = []

abbrev pub role_guest : Bytes
role_guest = codes "guest"

abbrev pub wildcard : Bytes
wildcard = codes "*"

pub record Policy : Type 0 where
  pub allowed_domains : List Bytes
  pub admin_emails : List Bytes
  pub open_reg : Bool

unfoldable pub normalize : Bytes → Bytes
normalize s = to_lower (trim_space s)

-- the loop over the configured domains
unfoldable pub add_domains : Policy → List Bytes → Policy
add_domains p [] = p
add_domains p (d ∷ ds) =
    add_domains
      (if normalize d == wildcard
        then record p { open_reg = true }
        else record p { allowed_domains = normalize d ∷ p.allowed_domains })
      ds

-- the loop over the configured administrators
unfoldable pub add_admins : Policy → List Bytes → Policy
add_admins p [] = p
add_admins p (e ∷ es) = add_admins (record p { admin_emails = normalize e ∷ p.admin_emails }) es

unfoldable pub new_policy : List Bytes → List Bytes → Policy
unfolding add_domains add_admins
new_policy domains admins =
    add_admins
      (add_domains (record { allowed_domains = []; admin_emails = []; open_reg = false }) domains)
      admins

unfoldable pub open_registration : Policy → Bool
open_registration p = p.open_reg

abbrev pub at_sign : ℕ
at_sign = b'@'

-- `email[at+1:]` when there is a last "@" with something behind it
unfoldable pub domain_part : Bytes → Option Bytes
unfolding last_index
domain_part email = elim (last_index at_sign email) [
  | none ↦ none
  | some i ↦ if nat_beq (i + 1) (length email) then none else some (drop (i + 1) email)
]

abbrev is_lower_letter : ℕ → Bool
is_lower_letter c = leb b'a' c && leb c b'z'

abbrev last_or_nil : List Bytes → Bytes
last_or_nil [] = []
last_or_nil (x ∷ []) = x
last_or_nil (x ∷ y ∷ r) = last_or_nil (y ∷ r)

unfoldable pub valid_public_domain : Bytes → Bool
unfolding split_by has_prefix has_suffix
valid_public_domain domain =
    let labels = split b'.' domain in
    let tld = last_or_nil labels in
    if is_nil domain || ltb 253 (length domain)
    then false
    else if has_prefix domain (codes ".") || has_suffix domain (codes ".")
    then false
    else if ltb (length labels) 2
    then false
    else if any is_nil labels
    then false
    else if ltb (length tld) 2
    then false
    else all is_lower_letter tld

-- `Role` on an address already lowered and trimmed
unfoldable pub role_of : Policy → Bytes → Bytes
role_of p email =
    if is_nil email
    then role_deny
    else if contains p.admin_emails email
    then role_admin
    else elim (domain_part email) [
      | none ↦ role_deny
      | some domain ↦
          if contains p.allowed_domains domain
          then role_user
          else if p.open_reg && valid_public_domain domain
          then role_user
          else role_deny
    ]

unfoldable pub role : Policy → Bytes → Bytes
unfolding normalize role_of
role p email = role_of p (normalize email)

unfoldable pub allowed : Policy → Bytes → Bool
allowed p email = not (role p email == role_deny)

-- `at <= 0` here, where `Role` has `at < 0`: a guest's address has a local part.
eligible : Bytes → Bool
unfolding last_index valid_public_domain
eligible email = elim (last_index at_sign email) [
  | none ↦ false
  | some i ↦
      if nat_beq i 0 || nat_beq (i + 1) (length email)
      then false
      else valid_public_domain (drop (i + 1) email)
]

unfoldable pub guest_eligible : Bytes → Bool
unfolding normalize eligible
guest_eligible email = eligible (normalize email)

unfoldable pub login_role : Policy → Bytes → Bool → Bytes
login_role p email open_host =
    if not (role p email == role_deny)
    then role p email
    else if open_host && guest_eligible email
    then role_guest
    else role_deny

domain_or_nil : Bytes → Bytes
unfolding domain_part
domain_or_nil email = elim (domain_part email) [ none ↦ [] | some d ↦ d ]

unfoldable pub domain_of : Bytes → Bytes
unfolding normalize domain_or_nil
domain_of email = domain_or_nil (normalize email)
