-- ===== src/Authz/Redirect.antt =====
-- internal/authz/authz.go: `ValidateRedirect` and `SafeRedirect`. `net/url` is a parameter: what
-- `url.Parse` makes of a text, of which the code reads the scheme, whether there is userinfo,
-- `Hostname()` and `String()`.
pub mod Safe
use vps_scaffold_auth.Common.{
  ℕ, zero, suc, ◌+◌, ◌-◌, ◌*◌, ◌/◌, ◌%◌, ◌≤◌, ◌<◌, max, String, ◌≡◌, refl, sym, ap, ◌∙◌, ◌≢◌, ◌↔◌,
  ◌⊎◌, inl, inr, Bool, true, false, not, ◌&&◌, ◌||◌, Option, none, some, List, [], ◌∷◌, ◌++◌, map,
  arith, ltb, leb, nat_beq, if◌then◌else◌, nat_beq_iff, ltb→lt, leb→le, Bool-cases, Option-cases,
  is_some, Eq, ◌==◌, Bytes, bytes_beq, bytes_beq_iff, pair_beq, nat_eq, bytes_eq, pair_eq, beq_refl,
  length, is_nil, drop, any, all, keep, count_if, contains, any-append, all-append, length-append,
  contains-append, contains-keep, all-contains,
}
use vps_scaffold_auth.Common.Text.{
  codes, is_space, lower, to_lower, trim_left, trim_right, trim_space, last_index, cons_head,
  split_by, split, fields_func, join, cut, has_prefix, has_suffix, trim_prefix,
}
use vps_scaffold_auth.Common.Table.{
  Table, lookup, delete, insert, lookup-delete, lookup-insert, length-delete-le, length-insert-le,
  keep_value, filter_values, IsKeyed, lookup-filter_values, filter_values-IsKeyed, insert-IsKeyed,
  delete-IsKeyed, length-insert_present, length-insert_absent, filter_keys, lookup-filter_keys,
}

pub record Url : Type 0 where
  pub scheme : Bytes
  pub has_user : Bool
  pub hostname : Bytes
  pub text : Bytes

abbrev pub Parser : Type 0
Parser = Bytes → Option Url

unfoldable pub host_in_domain : Bytes → Bytes → Bool
unfolding has_suffix
host_in_domain host domain = host == domain || has_suffix host (b'.' ∷ domain)

unfoldable pub validate_redirect : Parser → Bytes → Bytes → Option Bytes
unfolding to_lower has_prefix host_in_domain
validate_redirect parse rd raw = if is_nil rd then none else elim (parse rd) [
  | none ↦ none
  | some u ↦
      let host = to_lower u.hostname in
      let domain = to_lower (trim_prefix raw (codes ".")) in
      if not (u.scheme == codes "https")
      then none
      else if u.has_user
      then none
      else if is_nil host || is_nil domain
      then none
      else if not (host_in_domain host domain)
      then none
      else some u.text
]

unfoldable pub safe_redirect : Parser → Bytes → Bytes → Bytes → Bytes
unfolding validate_redirect
safe_redirect parse rd domain fallback = elim (validate_redirect parse rd domain) [
  | none ↦ fallback
  | some v ↦ v
]
