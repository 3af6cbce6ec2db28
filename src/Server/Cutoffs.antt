-- ===== src/Server/Cutoffs.antt =====
-- internal/server/session_cutoffs.go: sessions ended early, kept in memory and written through to the
-- database. `World` is the state that the functions of the file read and write.
pub mod Keys
pub mod Restart
pub mod Ended
use vps_scaffold_auth.Common.{
  ℕ, zero, suc, ◌+◌, ◌-◌, ◌*◌, ◌/◌, ◌%◌, ◌≤◌, ◌<◌, max, String, ◌≡◌, refl, sym, ap, ◌∙◌, ◌≢◌, ◌↔◌,
  ◌⊎◌, inl, inr, Bool, true, false, not, ◌&&◌, ◌||◌, Option, none, some, List, [], ◌∷◌, ◌++◌, map,
  arith, ltb, leb, nat_beq, if◌then◌else◌, nat_beq_iff, ltb→lt, leb→le, Bool-cases, Option-cases,
  is_some, Eq, ◌==◌, Bytes, bytes_beq, bytes_beq_iff, pair_beq, nat_eq, bytes_eq, pair_eq, beq_refl,
  length, is_nil, drop, any, all, keep, count_if, contains, any-append, all-append, length-append,
  contains-append, contains-keep, all-contains,
}
use vps_scaffold_auth.Common.Text.{
  codes, is_space, lower, to_lower, trim_left, trim_right, trim_space, last_index, cons_head,
  split_by, split, fields_func, join, cut, has_prefix, has_suffix, trim_prefix,
}
use vps_scaffold_auth.Common.Table.{
  Table, lookup, delete, insert, lookup-delete, lookup-insert, length-delete-le, length-insert-le,
  keep_value, filter_values, IsKeyed, lookup-filter_values, filter_values-IsKeyed, insert-IsKeyed,
  delete-IsKeyed, length-insert_present, length-insert_absent, filter_keys, lookup-filter_keys,
}
use vps_scaffold_auth.Server.Recheck.{GroupRecheck, forget_all}
use vps_scaffold_auth.Session.{Identity, kind_break_glass}
use vps_scaffold_auth.Session.Cookies.{Request}
use vps_scaffold_auth.Session.Manager.{Manager, read_session}
use vps_scaffold_auth.Store.Sessions.{end_sessions_before, list_session_cutoffs}

pub record SessionCutoffs : Type 0 where
  pub ended : Table Bytes ℕ
  pub groups_changed_at : ℕ

pub record World : Type 0 where
  pub stored : Table Bytes ℕ
  pub cutoffs : SessionCutoffs
  pub group_recheck : GroupRecheck

abbrev pub groups_key : Bytes
groups_key = codes "groups"

abbrev pub or_zero : Option ℕ → ℕ
or_zero none = 0
or_zero (some n) = n

unfoldable pub new_session_cutoffs : Table Bytes ℕ → SessionCutoffs
new_session_cutoffs stored = record {
  ended = list_session_cutoffs stored;
  groups_changed_at = or_zero (lookup groups_key (list_session_cutoffs stored));
}

-- strconv.FormatInt in base ten, with as many rounds as the number has digits at most
unfoldable pub format_rounds : ℕ → ℕ → Bytes
format_rounds zero n = []
format_rounds (suc f) n =
    let rest = format_rounds f (n / 10) in
    if ltb n 10 then (48 + n) ∷ [] else rest ++ (48 + n % 10) ∷ []

unfoldable pub format_int : ℕ → Bytes
format_int n = format_rounds (suc n) n

unfoldable pub card_key : ℕ → Bytes
card_key id = codes "card:" ++ format_int id

unfoldable pub passkey_key : ℕ → Bytes
passkey_key id = codes "passkey:" ++ format_int id

-- the locked part of `endSessions`
unfoldable pub raise_cutoff : SessionCutoffs → Bytes → ℕ → SessionCutoffs
raise_cutoff c key now =
    if ltb (or_zero (lookup key c.ended)) now
    then record c { ended = insert key now c.ended }
    else c

unfoldable pub end_sessions : World → Bytes → ℕ → World
end_sessions w key now = record w {
  stored = end_sessions_before w.stored key now;
  cutoffs = raise_cutoff w.cutoffs key now;
}

unfoldable pub mark_groups_changed : World → ℕ → World
mark_groups_changed w at = record {
  stored = end_sessions_before w.stored groups_key at;
  cutoffs =
      if ltb w.cutoffs.groups_changed_at at
      then record w.cutoffs { groups_changed_at = at }
      else w.cutoffs;
  group_recheck = forget_all w.group_recheck;
}

abbrev reaches : Option ℕ → ℕ → Bool
reaches none auth = false
reaches (some at) auth = leb auth at

-- the sign-in time that the checks use
abbrev pub signed_in_at : Identity → ℕ
signed_in_at id = if leb id.auth 1 then 0 else id.auth

unfoldable pub session_ended : ℕ → SessionCutoffs → Identity → ℕ → Bool
session_ended max_age c id now =
    let auth = signed_in_at id in
    if ltb 0 max_age && ltb max_age (now - auth)
    then true
    else if not (id.email == groups_key) && reaches (lookup id.email c.ended) auth
    then true
    else if not (id.pk == 0) && is_some (lookup (passkey_key id.pk) c.ended)
    then true
    else id.kind == kind_break_glass
      && (not (id.card == 0) && reaches (lookup (card_key id.card) c.ended) auth)

unfoldable pub groups_stale : SessionCutoffs → Identity → Bool
groups_stale c id =
    if id.kind == kind_break_glass
    then false
    else not (c.groups_changed_at == 0) && leb id.iat c.groups_changed_at

unfoldable pub read_live_session : Manager → ℕ → SessionCutoffs → Request → ℕ → Option Identity
read_live_session m max_age c r now = elim (read_session m r now) [
  | none ↦ none
  | some id ↦ if session_ended max_age c id now then none else some id
]
