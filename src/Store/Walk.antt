-- ===== src/Store/Walk.antt =====
-- internal/store/sqlite.go: `WITH RECURSIVE … UNION`, as SQLite runs it. A row that is new goes into
-- the table and the queue; the rows that each queued row brings in are offered in turn. `next` is
-- the recursive part of the query.
pub mod Reach
pub mod Exact
use vps_scaffold_auth.Common.{
  ℕ, zero, suc, ◌+◌, ◌-◌, ◌*◌, ◌/◌, ◌%◌, ◌≤◌, ◌<◌, max, String, ◌≡◌, refl, sym, ap, ◌∙◌, ◌≢◌, ◌↔◌,
  ◌⊎◌, inl, inr, Bool, true, false, not, ◌&&◌, ◌||◌, Option, none, some, List, [], ◌∷◌, ◌++◌, map,
  arith, ltb, leb, nat_beq, if◌then◌else◌, nat_beq_iff, ltb→lt, leb→le, Bool-cases, Option-cases,
  is_some, Eq, ◌==◌, Bytes, bytes_beq, bytes_beq_iff, pair_beq, nat_eq, bytes_eq, pair_eq, beq_refl,
  length, is_nil, drop, any, all, keep, count_if, contains, any-append, all-append, length-append,
  contains-append, contains-keep, all-contains,
}
use vps_scaffold_auth.Common.Text.{
  codes, is_space, lower, to_lower, trim_left, trim_right, trim_space, last_index, cons_head,
  split_by, split, fields_func, join, cut, has_prefix, has_suffix, trim_prefix,
}
use vps_scaffold_auth.Common.Table.{
  Table, lookup, delete, insert, lookup-delete, lookup-insert, length-delete-le, length-insert-le,
  keep_value, filter_values, IsKeyed, lookup-filter_values, filter_values-IsKeyed, insert-IsKeyed,
  delete-IsKeyed, length-insert_present, length-insert_absent, filter_keys, lookup-filter_keys,
}

pub record Search : Type 0 where
  pub found : List Bytes
  pub queue : List Bytes

-- UNION: a row that is already in the table is dropped.
unfoldable pub offer : Search → Bytes → Search
offer s y =
    if contains s.found y then s else record { found = y ∷ s.found; queue = s.queue ++ y ∷ [] }

unfoldable pub offer_all : Search → List Bytes → Search
offer_all s [] = s
offer_all s (y ∷ ys) = offer_all (offer s y) ys

module _ (next : Bytes → List Bytes) where
  -- The rounds that are left, of which there are always enough: see `Reach`.
  unfoldable pub walk : ℕ → List Bytes → List Bytes → List Bytes
  walk zero found queue = found
  walk (suc fuel) found [] = found
  walk (suc fuel) found (x ∷ queue) =
      let s = offer_all (record { found = found; queue = queue }) (next x) in
      walk fuel s.found s.queue

  unfoldable pub closure : ℕ → List Bytes → List Bytes
  closure fuel rows =
      let s = offer_all (record { found = []; queue = [] }) rows in walk fuel s.found s.queue
