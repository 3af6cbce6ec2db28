-- ===== src/Server/Alerts.antt =====
-- internal/server/code_alerts.go: which alerts about sign-in codes are sent. Times are nanoseconds,
-- and the readings that successive calls take do not go back. The text of a message, and its
-- sending, are not modelled: an alert is what is sent about whom, and to whom.
pub mod Daily
pub mod Once
use vps_scaffold_auth.Common.{
  ℕ, zero, suc, ◌+◌, ◌-◌, ◌*◌, ◌/◌, ◌%◌, ◌≤◌, ◌<◌, max, String, ◌≡◌, refl, sym, ap, ◌∙◌, ◌≢◌, ◌↔◌,
  ◌⊎◌, inl, inr, Bool, true, false, not, ◌&&◌, ◌||◌, Option, none, some, List, [], ◌∷◌, ◌++◌, map,
  arith, ltb, leb, nat_beq, if◌then◌else◌, nat_beq_iff, ltb→lt, leb→le, Bool-cases, Option-cases,
  is_some, Eq, ◌==◌, Bytes, bytes_beq, bytes_beq_iff, pair_beq, nat_eq, bytes_eq, pair_eq, beq_refl,
  length, is_nil, drop, any, all, keep, count_if, contains, any-append, all-append, length-append,
  contains-append, contains-keep, all-contains,
}
use vps_scaffold_auth.Common.Text.{
  codes, is_space, lower, to_lower, trim_left, trim_right, trim_space, last_index, cons_head,
  split_by, split, fields_func, join, cut, has_prefix, has_suffix, trim_prefix,
}
use vps_scaffold_auth.Common.Table.{
  Table, lookup, delete, insert, lookup-delete, lookup-insert, length-delete-le, length-insert-le,
  keep_value, filter_values, IsKeyed, lookup-filter_values, filter_values-IsKeyed, insert-IsKeyed,
  delete-IsKeyed, length-insert_present, length-insert_absent, filter_keys, lookup-filter_keys,
}
use vps_scaffold_auth.Authz.Roles.{Policy, role, role_deny}

pub data CodeAlert : Type 0 where
  daily : CodeAlert
  burned : CodeAlert

abbrev pub max_code_alerts_per_day : ℕ
max_code_alerts_per_day = 10

abbrev pub day : ℕ
day = 86400000000000

abbrev pub DailyOnce : Type 0
DailyOnce = Table Bytes ℕ

abbrev pub within_day : Option ℕ → ℕ → Bool
within_day none now = false
within_day (some t) now = ltb (now - t) day

unfoldable pub due : DailyOnce → Bytes → ℕ → DailyOnce × Bool
due last key now =
    if within_day (lookup key last) now
    then (last, false)
    else (insert key now (filter_values (λ t. not (leb day (now - t))) last), true)

-- `start` is `none` where the code has the zero time.
pub record DailyCount : Type 0 where
  pub start : Option ℕ
  pub n : ℕ

unfoldable pub started : DailyCount → ℕ → DailyCount
started d now = if within_day d.start now then d else record { start = some now; n = 0 }

unfoldable pub allow_event : DailyCount → ℕ → ℕ → DailyCount × Bool
allow_event d limit now =
    let d' = started d now in
    if leb limit d'.n then (d', false) else (record d' { n = d'.n + 1 }, true)

pub data Notice : Type 0 where
  code_alert : Bytes → Bytes → CodeAlert → Notice  -- to an administrator, about an address
  overflow : Bytes → Notice  -- to an administrator

pub record Alerts : Type 0 where
  pub code_alerts : DailyOnce
  pub alerts_per_day : DailyCount

abbrev pub overflow_key : Bytes
overflow_key = codes "overflow"

unfoldable pub alert_about_codes :
    Policy → List Bytes → Alerts → Bytes → CodeAlert → ℕ → Alerts × List Notice
alert_about_codes p admins s addr kind now =
    if (role p addr == role_deny) || is_nil admins
    then (s, [])
    else (let (seen, first) = due s.code_alerts addr now in
        if not first
        then (record s { code_alerts = seen }, [])
        else (let (count, allowed) = allow_event s.alerts_per_day max_code_alerts_per_day now in
            if allowed
            then (
              record { code_alerts = seen; alerts_per_day = count },
              map (λ to. code_alert to addr kind) admins,
            )
            else (let (seen', told) = due seen overflow_key now in
                (
                  record { code_alerts = seen'; alerts_per_day = count },
                  if told then map overflow admins else [],
                ))))
