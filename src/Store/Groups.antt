-- ===== src/Store/Groups.antt =====
-- internal/store/sqlite.go: the tables `groups`, `group_members` and `group_includes`, and their
-- methods. A row that refers to a group that does not exist is refused by its foreign key, and
-- deleting a group deletes the rows that refer to it. Times are Unix seconds.
pub mod Resolve
pub mod Cycle
use vps_scaffold_auth.Common.{
  ℕ, zero, suc, ◌+◌, ◌-◌, ◌*◌, ◌/◌, ◌%◌, ◌≤◌, ◌<◌, max, String, ◌≡◌, refl, sym, ap, ◌∙◌, ◌≢◌, ◌↔◌,
  ◌⊎◌, inl, inr, Bool, true, false, not, ◌&&◌, ◌||◌, Option, none, some, List, [], ◌∷◌, ◌++◌, map,
  arith, ltb, leb, nat_beq, if◌then◌else◌, nat_beq_iff, ltb→lt, leb→le, Bool-cases, Option-cases,
  is_some, Eq, ◌==◌, Bytes, bytes_beq, bytes_beq_iff, pair_beq, nat_eq, bytes_eq, pair_eq, beq_refl,
  length, is_nil, drop, any, all, keep, count_if, contains, any-append, all-append, length-append,
  contains-append, contains-keep, all-contains,
}
use vps_scaffold_auth.Common.Text.{
  codes, is_space, lower, to_lower, trim_left, trim_right, trim_space, last_index, cons_head,
  split_by, split, fields_func, join, cut, has_prefix, has_suffix, trim_prefix,
}
use vps_scaffold_auth.Common.Table.{
  Table, lookup, delete, insert, lookup-delete, lookup-insert, length-delete-le, length-insert-le,
  keep_value, filter_values, IsKeyed, lookup-filter_values, filter_values-IsKeyed, insert-IsKeyed,
  delete-IsKeyed, length-insert_present, length-insert_absent, filter_keys, lookup-filter_keys,
}
use vps_scaffold_auth.Store.Walk.{closure}

pub record GroupRow : Type 0 where
  pub label : Bytes
  pub created_at : ℕ

-- `members` is keyed by the group and the address, `includes` by the group and the one it includes.
pub record Groups : Type 0 where
  pub groups : Table Bytes GroupRow
  pub members : Table (Bytes × Bytes) ℕ
  pub includes : Table (Bytes × Bytes) ℕ

-- ORDER BY, by bytes
unfoldable pub bytes_le : Bytes → Bytes → Bool
bytes_le [] t = true
bytes_le (x ∷ s) [] = false
bytes_le (x ∷ s) (y ∷ t) = ltb x y || (nat_beq x y && bytes_le s t)

unfoldable pub insert_sorted : Bytes → List Bytes → List Bytes
insert_sorted x [] = x ∷ []
insert_sorted x (y ∷ ys) =
    let rest = insert_sorted x ys in if bytes_le x y then x ∷ y ∷ ys else y ∷ rest

unfoldable pub order_by : List Bytes → List Bytes
order_by [] = []
order_by (x ∷ xs) = insert_sorted x (order_by xs)

-- DISTINCT
unfoldable pub distinct : List Bytes → List Bytes
distinct [] = []
distinct (x ∷ xs) = let rest = distinct xs in if contains rest x then rest else x ∷ rest

abbrev pub keys {ℓ κ} : {K : Type ℓ} {V : Type κ} → Table K V → List K
keys [] = []
keys ((k, v) ∷ t) = k ∷ keys t

unfoldable pub list_groups : Groups → List Bytes
list_groups s = order_by (keys s.groups)

unfoldable pub create_group : Groups → Bytes → Bytes → ℕ → Groups
create_group s name label now =
    let created : ℕ = elim (lookup name s.groups) [ none ↦ now | some g ↦ g.created_at ] in
    record s { groups = insert name (record { label = label; created_at = created }) s.groups }

unfoldable pub update_group_label : Groups → Bytes → Bytes → Groups × Bool
update_group_label s name label = elim (lookup name s.groups) [
  | none ↦ (s, false)
  | some g ↦ (record s { groups = insert name (record g { label = label }) s.groups }, true)
]

unfoldable pub exists_group : Groups → Bytes → Bool
exists_group s name = is_some (lookup name s.groups)

-- the seconds of the pairs whose first is the key, and the firsts of those whose second is
unfoldable pub seconds_of : List (Bytes × Bytes) → Bytes → List Bytes
seconds_of [] k = []
seconds_of ((a, b) ∷ l) k = let rest = seconds_of l k in if a == k then b ∷ rest else rest

unfoldable pub firsts_of : List (Bytes × Bytes) → Bytes → List Bytes
firsts_of [] k = []
firsts_of ((a, b) ∷ l) k = let rest = firsts_of l k in if b == k then a ∷ rest else rest

abbrev pub included_by : Groups → Bytes → List Bytes
included_by s = seconds_of (keys s.includes)

abbrev pub including : Groups → Bytes → List Bytes
including s = firsts_of (keys s.includes)

-- rounds for a recursive query over the includes: its first rows, and one for each include
abbrev pub rounds : Groups → List Bytes → ℕ
rounds s rows = length rows + length (keys s.includes)

pub data IncludeResult : Type 0 where
  included : IncludeResult
  include_cycle : IncludeResult
  no_such_group : IncludeResult

-- the check of `AddGroupInclude`: what is below `inc`
unfoldable pub below : Groups → Bytes → List Bytes
below s inc = closure (included_by s) (rounds s (included_by s inc)) (included_by s inc)

unfoldable pub add_group_include : Groups → Bytes → Bytes → ℕ → Groups × IncludeResult
add_group_include s group inc now =
    if group == inc
    then (s, include_cycle)
    else if contains (below s inc) group
    then (s, include_cycle)
    else if not (exists_group s group && exists_group s inc)
    then (s, no_such_group)
    else if is_some (lookup (group, inc) s.includes)
    then (s, included)
    else (record s { includes = insert (group, inc) now s.includes }, included)

unfoldable pub remove_group_include : Groups → Bytes → Bytes → Groups
remove_group_include s group inc = record s { includes = delete (group, inc) s.includes }

-- the member rows' insert; none where its foreign key refuses it
unfoldable pub insert_member : Groups → Bytes → Bytes → ℕ → Option (Groups × Bool)
insert_member s group email now =
    if not (exists_group s group)
    then none
    else if is_some (lookup (group, email) s.members)
    then some (s, false)
    else some (record s { members = insert (group, email) now s.members }, true)

-- `none`: an error, and the transaction is rolled back
unfoldable pub add_group_members : Groups → Bytes → List Bytes → ℕ → Option (Groups × List Bytes)
add_group_members s group [] now = some (s, [])
add_group_members s group (e ∷ es) now = elim (insert_member s group e now) [
  | none ↦ none
  | some (t, new) ↦ elim (add_group_members t group es now) [
    | none ↦ none
    | some (u, added) ↦ some (u, if new then e ∷ added else added)
  ]
]

unfoldable pub add_group_member : Groups → Bytes → Bytes → ℕ → Option Groups
add_group_member s group email now = elim (insert_member s group email now) [
  | none ↦ none
  | some (t, new) ↦ some t
]

unfoldable pub remove_group_member : Groups → Bytes → Bytes → Groups
remove_group_member s group email = record s { members = delete (group, email) s.members }

unfoldable pub delete_group : Groups → Bytes → Groups
delete_group s name = record {
  groups = delete name s.groups;
  members = filter_keys (λ k. not (k.0 == name)) s.members;
  includes = filter_keys (λ k. not (k.0 == name) && not (k.1 == name)) s.includes;
}

unfoldable pub list_group_members : Groups → Bytes → List Bytes
list_group_members s group = order_by (seconds_of (keys s.members) group)

unfoldable pub groups_for_email : Groups → Bytes → List Bytes
groups_for_email s email =
    let direct = firsts_of (keys s.members) email in
    order_by (closure (including s) (rounds s direct) direct)

-- the members of any of the groups
unfoldable pub members_of_any : List (Bytes × Bytes) → List Bytes → List Bytes
members_of_any [] names = []
members_of_any ((group, email) ∷ l) names =
    let rest = members_of_any l names in if contains names group then email ∷ rest else rest

-- `none` where the group does not exist
unfoldable pub group_members_resolved : Groups → Bytes → Option (List Bytes)
group_members_resolved s group =
    if not (exists_group s group)
    then none
    else (let names = closure (included_by s) (rounds s (group ∷ [])) (group ∷ []) in
        some (order_by (distinct (members_of_any (keys s.members) names))))
