-- ===== src/Store/Feeds.antt =====
-- internal/store/sqlite.go: the table `group_sync_state`, and what a feed's sync changes. The times of
-- a `SyncState` are nanoseconds, `none` for the zero time; the table holds seconds, 0 for it. The
-- words of a state's detail, and the client of an audit row, are left out.
pub mod Applied
use vps_scaffold_auth.Common.{
  ℕ, zero, suc, ◌+◌, ◌-◌, ◌*◌, ◌/◌, ◌%◌, ◌≤◌, ◌<◌, max, String, ◌≡◌, refl, sym, ap, ◌∙◌, ◌≢◌, ◌↔◌,
  ◌⊎◌, inl, inr, Bool, true, false, not, ◌&&◌, ◌||◌, Option, none, some, List, [], ◌∷◌, ◌++◌, map,
  arith, ltb, leb, nat_beq, if◌then◌else◌, nat_beq_iff, ltb→lt, leb→le, Bool-cases, Option-cases,
  is_some, Eq, ◌==◌, Bytes, bytes_beq, bytes_beq_iff, pair_beq, nat_eq, bytes_eq, pair_eq, beq_refl,
  length, is_nil, drop, any, all, keep, count_if, contains, any-append, all-append, length-append,
  contains-append, contains-keep, all-contains,
}
use vps_scaffold_auth.Common.Text.{
  codes, is_space, lower, to_lower, trim_left, trim_right, trim_space, last_index, cons_head,
  split_by, split, fields_func, join, cut, has_prefix, has_suffix, trim_prefix,
}
use vps_scaffold_auth.Common.Table.{
  Table, lookup, delete, insert, lookup-delete, lookup-insert, length-delete-le, length-insert-le,
  keep_value, filter_values, IsKeyed, lookup-filter_values, filter_values-IsKeyed, insert-IsKeyed,
  delete-IsKeyed, length-insert_present, length-insert_absent, filter_keys, lookup-filter_keys,
}
use vps_scaffold_auth.Store.Groups.{Groups, add_group_members, remove_group_member}

pub data SyncStatus : Type 0 where
  sync_never sync_ok sync_failed sync_empty sync_held : SyncStatus

pub record SyncState : Type 0 where
  pub last_attempt : Option ℕ
  pub last_success : Option ℕ
  pub status : SyncStatus
  pub pending_hash : Bytes
  pub pending_add : List Bytes
  pub pending_remove : List Bytes
  pub accepted : List Bytes
  pub held_since : Option ℕ
  pub kept_hash : Bytes

-- a row of `group_sync_state`, without its key
pub record SyncRow : Type 0 where
  pub last_attempt : ℕ
  pub last_success : ℕ
  pub status : SyncStatus
  pub pending_hash : Bytes
  pub pending_add_list : Bytes
  pub pending_remove_list : Bytes
  pub accepted_list : Bytes
  pub held_since : ℕ
  pub kept_hash : Bytes

abbrev pub newline : ℕ
newline = 10

unfoldable pub split_lines : Bytes → List Bytes
split_lines s = if is_nil s then [] else split newline s

abbrev pub join_lines : List Bytes → Bytes
join_lines = join newline

unfoldable pub unix_or_zero : Option ℕ → ℕ
unix_or_zero none = 0
unix_or_zero (some t) = t / 1000000000

unfoldable pub unix_time : ℕ → Option ℕ
unix_time n = if ltb 0 n then some (n * 1000000000) else none

abbrev pub old_success : Option SyncRow → ℕ
old_success none = 0
old_success (some row) = row.last_success

unfoldable pub set_group_sync_state : Table Bytes SyncRow → Bytes → SyncState → Table Bytes SyncRow
set_group_sync_state t group st =
    let success = unix_or_zero st.last_success in
    insert group
      (record {
        last_attempt = unix_or_zero st.last_attempt;
        last_success = if ltb 0 success then success else old_success (lookup group t);
        status = st.status;
        pending_hash = st.pending_hash;
        pending_add_list = join_lines st.pending_add;
        pending_remove_list = join_lines st.pending_remove;
        accepted_list = join_lines st.accepted;
        held_since = unix_or_zero st.held_since;
        kept_hash = st.kept_hash;
      })
      t

-- the state of a group without a row
abbrev pub no_sync : SyncState
no_sync = record {
  last_attempt = none;
  last_success = none;
  status = sync_never;
  pending_hash = [];
  pending_add = [];
  pending_remove = [];
  accepted = [];
  held_since = none;
  kept_hash = [];
}

-- a group's entry of what `ListGroupSyncStates` returns
unfoldable pub sync_state : Table Bytes SyncRow → Bytes → SyncState
sync_state t group = elim (lookup group t) [
  | none ↦ no_sync
  | some row ↦ record {
    last_attempt = some (row.last_attempt * 1000000000);
    last_success = unix_time row.last_success;
    status = row.status;
    pending_hash = row.pending_hash;
    pending_add = split_lines row.pending_add_list;
    pending_remove = split_lines row.pending_remove_list;
    accepted = split_lines row.accepted_list;
    held_since = unix_time row.held_since;
    kept_hash = row.kept_hash;
  }
]

unfoldable pub remove_members : Groups → Bytes → List Bytes → Groups
remove_members s group [] = s
remove_members s group (e ∷ es) = remove_members (remove_group_member s group e) group es

-- `none`: an error, and the transaction is rolled back
unfoldable pub apply_group_sync : Groups → Bytes → List Bytes → List Bytes → ℕ → Option Groups
apply_group_sync s group add remove now = elim (add_group_members s group add now) [
  | none ↦ none
  | some (t, added) ↦ some (remove_members t group remove)
]
