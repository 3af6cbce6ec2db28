-- ===== src/Authz/Groups.antt =====
-- internal/authz/authz.go: group names, `BuildGroups`, `HasGroup` and the policy lists.
pub mod Build
use vps_scaffold_auth.Common.{
  ℕ, zero, suc, ◌+◌, ◌-◌, ◌*◌, ◌/◌, ◌%◌, ◌≤◌, ◌<◌, max, String, ◌≡◌, refl, sym, ap, ◌∙◌, ◌≢◌, ◌↔◌,
  ◌⊎◌, inl, inr, Bool, true, false, not, ◌&&◌, ◌||◌, Option, none, some, List, [], ◌∷◌, ◌++◌, map,
  arith, ltb, leb, nat_beq, if◌then◌else◌, nat_beq_iff, ltb→lt, leb→le, Bool-cases, Option-cases,
  is_some, Eq, ◌==◌, Bytes, bytes_beq, bytes_beq_iff, pair_beq, nat_eq, bytes_eq, pair_eq, beq_refl,
  length, is_nil, drop, any, all, keep, count_if, contains, any-append, all-append, length-append,
  contains-append, contains-keep, all-contains,
}
use vps_scaffold_auth.Common.Text.{
  codes, is_space, lower, to_lower, trim_left, trim_right, trim_space, last_index, cons_head,
  split_by, split, fields_func, join, cut, has_prefix, has_suffix, trim_prefix,
}
use vps_scaffold_auth.Common.Table.{
  Table, lookup, delete, insert, lookup-delete, lookup-insert, length-delete-le, length-insert-le,
  keep_value, filter_values, IsKeyed, lookup-filter_values, filter_values-IsKeyed, insert-IsKeyed,
  delete-IsKeyed, length-insert_present, length-insert_absent, filter_keys, lookup-filter_keys,
}
use vps_scaffold_auth.Authz.Roles.{role_admin, role_user, role_guest, normalize}

abbrev pub comma : ℕ
comma = b','

unfoldable pub is_reserved_group : Bytes → Bool
unfolding normalize
is_reserved_group name =
    let n = normalize name in n == role_admin || n == role_user || n == role_guest

-- the closure `add` of `BuildGroups`; `seen` holds the entries of `out`
unfoldable pub add_group : List Bytes → Bytes → List Bytes
add_group out raw =
    let g = trim_space raw in
    if is_nil g then out else if contains out g then out else out ++ g ∷ []

unfoldable pub add_groups : List Bytes → List Bytes → List Bytes
unfolding add_group is_reserved_group
add_groups out [] = out
add_groups out (g ∷ gs) = add_groups (if is_reserved_group g then out else add_group out g) gs

unfoldable pub build_groups : Bytes → List Bytes → Bytes
unfolding add_groups join
build_groups role db_groups = join comma (add_groups (add_group [] role) db_groups)

unfoldable pub group_char : ℕ → Bool
group_char c =
    (leb b'a' c && leb c b'z') || (leb b'0' c && leb c b'9') || (nat_beq c b'-' || nat_beq c b'_')

unfoldable pub valid_group_name : Bytes → Bool
unfolding group_char
valid_group_name name = not (is_nil name) && all group_char name

unfoldable pub has_group : Bytes → Bytes → Bool
unfolding split_by trim_space
has_group groups target = any (λ g. trim_space g == target) (split comma groups)

abbrev pub list_separator : ℕ → Bool
list_separator c =
    nat_beq c b','
    || nat_beq c b' '
    || nat_beq c b';'
    || nat_beq c 10
    || nat_beq c 13
    || nat_beq c 9

unfoldable pub split_list : Bytes → List Bytes
unfolding fields_func to_lower
split_list s = map to_lower (fields_func list_separator s)

unfoldable pub list_names : Bytes → Bytes → Bool
unfolding split_list
list_names list want = contains (split_list list) want
