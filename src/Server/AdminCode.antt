-- ===== src/Server/AdminCode.antt =====
-- internal/server/passkeys.go: `checkAdminCode`, an administrator's authenticator code. Times are
-- nanoseconds; the store is given the second. The library that validates a code is a parameter, and
-- so is what `getTOTPSecret` reads; of an audit row, its address and outcome.
pub mod Once
use vps_scaffold_auth.Common.{
  ℕ, zero, suc, ◌+◌, ◌-◌, ◌*◌, ◌/◌, ◌%◌, ◌≤◌, ◌<◌, max, String, ◌≡◌, refl, sym, ap, ◌∙◌, ◌≢◌, ◌↔◌,
  ◌⊎◌, inl, inr, Bool, true, false, not, ◌&&◌, ◌||◌, Option, none, some, List, [], ◌∷◌, ◌++◌, map,
  arith, ltb, leb, nat_beq, if◌then◌else◌, nat_beq_iff, ltb→lt, leb→le, Bool-cases, Option-cases,
  is_some, Eq, ◌==◌, Bytes, bytes_beq, bytes_beq_iff, pair_beq, nat_eq, bytes_eq, pair_eq, beq_refl,
  length, is_nil, drop, any, all, keep, count_if, contains, any-append, all-append, length-append,
  contains-append, contains-keep, all-contains,
}
use vps_scaffold_auth.Common.Text.{
  codes, is_space, lower, to_lower, trim_left, trim_right, trim_space, last_index, cons_head,
  split_by, split, fields_func, join, cut, has_prefix, has_suffix, trim_prefix,
}
use vps_scaffold_auth.Common.Table.{
  Table, lookup, delete, insert, lookup-delete, lookup-insert, length-delete-le, length-insert-le,
  keep_value, filter_values, IsKeyed, lookup-filter_values, filter_values-IsKeyed, insert-IsKeyed,
  delete-IsKeyed, length-insert_present, length-insert_absent, filter_keys, lookup-filter_keys,
}
use vps_scaffold_auth.Ratelimit.{Limiter, allow, refund}
use vps_scaffold_auth.Store.Totp.{
  TotpFailures, totp_failure_count, next_failures, reserve_totp_attempt, clear_totp_failures,
}
use vps_scaffold_auth.Server.Replay.{
  Seen, totp_replay_window, replay_key, use_code, use_code-IsKeyed, use_code-keeps,
  use_code-recorded, use_code_iff,
}

-- the replies, with their HTTP statuses: 429, 429, 401, 401 and 200
pub data CodeReply : Type 0 where
  too_many : CodeReply
  locked_out : CodeReply
  wrong_code : CodeReply
  replayed : CodeReply
  accepted : CodeReply

pub record CodeState : Type 0 where
  pub wrong_codes : Limiter
  pub failures : TotpFailures
  pub replay : Seen
  pub audit : List (Bytes × CodeReply)

abbrev pub totp_lockout_window : ℕ
totp_lockout_window = 900

abbrev pub seconds : ℕ → ℕ
seconds now = now / 1000000000

-- one call: the client's address, the administrator's, the code and the time
pub record Attempt : Type 0 where
  pub ip : Bytes
  pub email : Bytes
  pub code : Bytes
  pub at : ℕ

module _ (validate : Bytes → Bytes → ℕ → Bool) (secret_of : Bytes → Option Bytes)
    (max_attempts : ℕ) where
  abbrev logged : CodeState → Attempt → CodeReply → CodeState × CodeReply
  logged s a reply = (record s { audit = (a.email, reply) ∷ s.audit }, reply)

  unfoldable pub valid_code : Attempt → Bool
  valid_code a = elim (secret_of a.email) [
    | none ↦ false
    | some secret ↦ validate a.code secret a.at
  ]

  -- after the replay guard has taken the code
  unfoldable pub accept_code : CodeState → Attempt → CodeState × CodeReply
  accept_code s a =
      logged
        (record s {
          wrong_codes = refund s.wrong_codes a.ip a.at;
          failures = clear_totp_failures s.failures a.email;
        })
        a accepted

  -- after the attempt is reserved
  unfoldable pub check_reserved : CodeState → Attempt → ℕ → CodeState × CodeReply
  check_reserved s a n =
      if ltb max_attempts n
      then logged s a locked_out
      else if not (valid_code a)
      then logged s a wrong_code
      else (let (seen, unused) = use_code s.replay a.email a.code a.at in
          if not unused
          then logged (record s { replay = seen }) a replayed
          else accept_code (record s { replay = seen }) a)

  unfoldable pub check_admin_code : CodeState → Attempt → CodeState × CodeReply
  check_admin_code s a =
      let (limiter, allowed) = allow s.wrong_codes a.ip a.at in
      if not allowed
      then (record s { wrong_codes = limiter }, too_many)
      else (let (failures, n) =
            reserve_totp_attempt s.failures a.email totp_lockout_window (seconds a.at) in
          check_reserved (record s { wrong_codes = limiter; failures = failures }) a n)

  -- A code is accepted exactly when the client's network may try, the account's count of attempts in
  -- the lockout window is below the limit, the code is valid for the account's secret, and the
  -- replay guard takes it.
  pub accepted_iff :
      (s : CodeState) (a : Attempt)
      → ((check_admin_code s a).1 ≡ accepted) ↔ (
          ((allow s.wrong_codes a.ip a.at).1 ≡ true)
          × (totp_failure_count s.failures a.email totp_lockout_window (seconds a.at)
              < max_attempts)
          × (valid_code a ≡ true)
          × ((use_code s.replay a.email a.code a.at).1 ≡ true))
  unfolding check_admin_code check_reserved accept_code reserve_totp_attempt next_failures
      totp_failure_count
  accepted_iff s a = elim (Option-cases (lookup a.email s.failures)) [
    | inl e ↦ (λ h. (ground arith, ground arith, ground arith, ground arith), λ h. ground arith)
    | inr (f, e) ↦
        (λ h. (ground arith, ground arith, ground arith, ground arith), λ h. ground arith)
  ]

  -- An account whose count has reached the limit is refused whatever the code, and the refusal is the
  -- same for every code: it says nothing of the code's being right.
  pub locked_account_blind :
      (s : CodeState) (a : Attempt) (code : Bytes)
      → max_attempts ≤ totp_failure_count s.failures a.email totp_lockout_window (seconds a.at)
      → ((check_admin_code s a).1 ≢ accepted)
        × (check_admin_code s (record a { code = code }) ≡ check_admin_code s a)
  unfolding check_admin_code check_reserved reserve_totp_attempt next_failures totp_failure_count
  locked_account_blind s a code h = elim (Option-cases (lookup a.email s.failures)) [
    | inl e ↦ (λ q. ground arith, ground arith)
    | inr (f, e) ↦ (λ q. ground arith, ground arith)
  ]
