-- ===== src/Server/Challenges.antt =====
-- internal/server/passkeys.go: `challengeGuard`, which makes each passkey challenge single-use. Times
-- are nanoseconds, and the readings that successive calls take do not go back; the store is given
-- the second. The hash is a parameter, and the database answers.
pub mod Once
use vps_scaffold_auth.Common.{
  ℕ, zero, suc, ◌+◌, ◌-◌, ◌*◌, ◌/◌, ◌%◌, ◌≤◌, ◌<◌, max, String, ◌≡◌, refl, sym, ap, ◌∙◌, ◌≢◌, ◌↔◌,
  ◌⊎◌, inl, inr, Bool, true, false, not, ◌&&◌, ◌||◌, Option, none, some, List, [], ◌∷◌, ◌++◌, map,
  arith, ltb, leb, nat_beq, if◌then◌else◌, nat_beq_iff, ltb→lt, leb→le, Bool-cases, Option-cases,
  is_some, Eq, ◌==◌, Bytes, bytes_beq, bytes_beq_iff, pair_beq, nat_eq, bytes_eq, pair_eq, beq_refl,
  length, is_nil, drop, any, all, keep, count_if, contains, any-append, all-append, length-append,
  contains-append, contains-keep, all-contains,
}
use vps_scaffold_auth.Common.Text.{
  codes, is_space, lower, to_lower, trim_left, trim_right, trim_space, last_index, cons_head,
  split_by, split, fields_func, join, cut, has_prefix, has_suffix, trim_prefix,
}
use vps_scaffold_auth.Common.Table.{
  Table, lookup, delete, insert, lookup-delete, lookup-insert, length-delete-le, length-insert-le,
  keep_value, filter_values, IsKeyed, lookup-filter_values, filter_values-IsKeyed, insert-IsKeyed,
  delete-IsKeyed, length-insert_present, length-insert_absent, filter_keys, lookup-filter_keys,
}
use vps_scaffold_auth.Store.Sessions.{use_challenge, prune_challenges}

abbrev pub challenge_guard_max : ℕ
challenge_guard_max = 50000

abbrev pub passkey_challenge_ttl : ℕ
passkey_challenge_ttl = 600000000000

abbrev pub sweep_interval : ℕ
sweep_interval = 60000000000

abbrev pub second_of : ℕ → ℕ
second_of now = now / 1000000000

pub record ChallengeGuard : Type 0 where
  pub used : Table Bytes ℕ
  pub next_sweep : ℕ
  pub count : ℕ

unfoldable pub sweep : ChallengeGuard → ℕ → ChallengeGuard
sweep g now =
    if ltb g.next_sweep now
    then (let (left, n) = prune_challenges g.used (second_of now) in
        record { used = left; next_sweep = now + sweep_interval; count = n })
    else g

unfoldable pub take_challenge : ChallengeGuard → Bytes → ℕ → ChallengeGuard × Bool
take_challenge g key now =
    if leb challenge_guard_max g.count
    then (g, false)
    else (let (used, unused) =
          use_challenge g.used key (second_of (now + passkey_challenge_ttl)) (second_of now) in
        (record g { used = used; count = if unused then g.count + 1 else g.count }, unused))

unfoldable pub use_once : (Bytes → Bytes) → ChallengeGuard → Bytes → ℕ → ChallengeGuard × Bool
use_once hash g challenge now = take_challenge (sweep g now) (hash challenge) now
