-- ===== src/Authz/Access.antt =====
-- internal/authz/authz.go: `CanAccessApp`, the decision for one application.
pub mod Admits
use vps_scaffold_auth.Common.{
  ℕ, zero, suc, ◌+◌, ◌-◌, ◌*◌, ◌/◌, ◌%◌, ◌≤◌, ◌<◌, max, String, ◌≡◌, refl, sym, ap, ◌∙◌, ◌≢◌, ◌↔◌,
  ◌⊎◌, inl, inr, Bool, true, false, not, ◌&&◌, ◌||◌, Option, none, some, List, [], ◌∷◌, ◌++◌, map,
  arith, ltb, leb, nat_beq, if◌then◌else◌, nat_beq_iff, ltb→lt, leb→le, Bool-cases, Option-cases,
  is_some, Eq, ◌==◌, Bytes, bytes_beq, bytes_beq_iff, pair_beq, nat_eq, bytes_eq, pair_eq, beq_refl,
  length, is_nil, drop, any, all, keep, count_if, contains, any-append, all-append, length-append,
  contains-append, contains-keep, all-contains,
}
use vps_scaffold_auth.Common.Text.{
  codes, is_space, lower, to_lower, trim_left, trim_right, trim_space, last_index, cons_head,
  split_by, split, fields_func, join, cut, has_prefix, has_suffix, trim_prefix,
}
use vps_scaffold_auth.Common.Table.{
  Table, lookup, delete, insert, lookup-delete, lookup-insert, length-delete-le, length-insert-le,
  keep_value, filter_values, IsKeyed, lookup-filter_values, filter_values-IsKeyed, insert-IsKeyed,
  delete-IsKeyed, length-insert_present, length-insert_absent, filter_keys, lookup-filter_keys,
}
use vps_scaffold_auth.Authz.Roles.{domain_of}
use vps_scaffold_auth.Authz.Groups.{split_list, has_group}

-- the loops over `splitList(reqGroups)`
abbrev pub holds_any : Bytes → Bytes → Bool
holds_any groups req_groups = any (has_group groups) (split_list req_groups)

unfoldable pub can_access_app : Bytes → Bytes → Bool → Bool → Bytes → Bytes → Bool → Bool
can_access_app email groups break_glass guest req_domains req_groups allow_guests =
    if guest
    then (if allow_guests then true else holds_any groups req_groups)
    else if is_nil (trim_space req_domains) && is_nil (trim_space req_groups)
    then not break_glass
    else if not (is_nil (domain_of email))
        && not break_glass
        && any (λ want. domain_of email == want) (split_list req_domains)
    then true
    else holds_any groups req_groups
