-- ===== src/Store/Sessions.antt =====
-- internal/store/sqlite.go: the tables `session_cutoffs` and `used_challenges`, and their methods.
use vps_scaffold_auth.Common.{
  ℕ, max, Bool, true, false, not, none, some, ltb, if◌then◌else◌, Bytes, nat_eq, bytes_eq, pair_eq,
  length,
}
use vps_scaffold_auth.Common.Table.{Table, lookup, insert, filter_values}

unfoldable pub end_sessions_before : Table Bytes ℕ → Bytes → ℕ → Table Bytes ℕ
end_sessions_before t key at =
    insert key (elim (lookup key t) [ none ↦ at | some old ↦ max old at ]) t

-- the whole table, as a map
unfoldable pub list_session_cutoffs : Table Bytes ℕ → Table Bytes ℕ
list_session_cutoffs t = t

-- The flag is whether a row was written.
unfoldable pub use_challenge : Table Bytes ℕ → Bytes → ℕ → ℕ → Table Bytes ℕ × Bool
use_challenge t hash until now = elim (lookup hash t) [
  | none ↦ (insert hash until t, true)
  | some old ↦ if ltb old now then (insert hash until t, true) else (t, false)
]

unfoldable pub prune_challenges : Table Bytes ℕ → ℕ → Table Bytes ℕ × ℕ
prune_challenges t now =
    let left = filter_values (λ until. not (ltb until now)) t in (left, length left)
