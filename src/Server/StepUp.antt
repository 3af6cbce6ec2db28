-- ===== src/Server/StepUp.antt =====
-- internal/server/handlers.go: `stepUpSession`, `adminTierHeld`, `adminDest` and `handleTOTP`, the
-- admin door. The check of a code is a parameter. The passkey that may be offered after the
-- code, in place of the redirect, is not modelled.
pub mod Taken
use vps_scaffold_auth.Common.{
  ℕ, zero, suc, ◌+◌, ◌-◌, ◌*◌, ◌/◌, ◌%◌, ◌≤◌, ◌<◌, max, String, ◌≡◌, refl, sym, ap, ◌∙◌, ◌≢◌, ◌↔◌,
  ◌⊎◌, inl, inr, Bool, true, false, not, ◌&&◌, ◌||◌, Option, none, some, List, [], ◌∷◌, ◌++◌, map,
  arith, ltb, leb, nat_beq, if◌then◌else◌, nat_beq_iff, ltb→lt, leb→le, Bool-cases, Option-cases,
  is_some, Eq, ◌==◌, Bytes, bytes_beq, bytes_beq_iff, pair_beq, nat_eq, bytes_eq, pair_eq, beq_refl,
  length, is_nil, drop, any, all, keep, count_if, contains, any-append, all-append, length-append,
  contains-append, contains-keep, all-contains,
}
use vps_scaffold_auth.Common.Text.{
  codes, is_space, lower, to_lower, trim_left, trim_right, trim_space, last_index, cons_head,
  split_by, split, fields_func, join, cut, has_prefix, has_suffix, trim_prefix,
}
use vps_scaffold_auth.Common.Table.{
  Table, lookup, delete, insert, lookup-delete, lookup-insert, length-delete-le, length-insert-le,
  keep_value, filter_values, IsKeyed, lookup-filter_values, filter_values-IsKeyed, insert-IsKeyed,
  delete-IsKeyed, length-insert_present, length-insert_absent, filter_keys, lookup-filter_keys,
}
use mathlib.Core.Path.{subst}
use vps_scaffold_auth.Server.SignIn.{SignInConfig, Origin, require_same_origin}
use vps_scaffold_auth.Server.SignIn.Attempt.{login_redirect}
use vps_scaffold_auth.Authz.Roles.{role, role_admin}
use vps_scaffold_auth.Authz.Redirect.{safe_redirect}
use vps_scaffold_auth.Session.{Identity, Grant, kind_normal}
use vps_scaffold_auth.Session.Cookies.{Request, Response}
use vps_scaffold_auth.Session.Manager.{session_ttl, issue_session_grant}
use vps_scaffold_auth.Session.Csrf.{verify_csrf}
use vps_scaffold_auth.Ratelimit.{allow}
use vps_scaffold_auth.Store.Totp.{totp_failure_count}
use vps_scaffold_auth.Server.Replay.{use_code}
use vps_scaffold_auth.Server.Tier.{
  Directory, admin_step_fresh, is_admin_session, passkey_still_valid, compute_groups,
}
use vps_scaffold_auth.Server.Cutoffs.{SessionCutoffs, read_live_session}
use vps_scaffold_auth.Server.AdminCode.{
  CodeReply, too_many, locked_out, wrong_code, replayed, accepted, CodeState, Attempt,
  totp_lockout_window, seconds, valid_code, check_admin_code, accepted_iff,
}

-- what is posted to /totp
pub record StepAttempt : Type 0 where
  pub from : Origin
  pub cookies : Request
  pub ip : Bytes
  pub rd : Bytes
  pub csrf : Bytes
  pub code : Bytes

pub data StepPage : Type 0 where
  step_refused : StepPage  -- not from the sign-in page
  step_login : Bytes → StepPage
  step_held : Bytes → StepPage  -- a redirect, the tier being held already
  step_expired : Bytes → StepPage
  step_again : Bytes → CodeReply → StepPage
  step_taken : Bytes → StepPage  -- a redirect with the admin tier

pub record StepAnswer : Type 0 where
  pub page : StepPage
  pub cookies : Response

unfoldable pub step_up_session :
    SignInConfig → Directory → SessionCutoffs → Request → ℕ → Option Identity
step_up_session c d cutoffs r now =
    elim (read_live_session c.gateway.manager c.gateway.session_max_age cutoffs r now) [
      | none ↦ none
      | some id ↦
          if not (id.kind == kind_normal)
            || (not (role c.gateway.policy id.email == role_admin)
                || not (passkey_still_valid d id))
          then none
          else some id
    ]

unfoldable pub admin_tier_held : SignInConfig → Identity → ℕ → Bool
admin_tier_held c id now = is_admin_session id && admin_step_fresh c.gateway (some id) now

unfoldable pub admin_dest : SignInConfig → Bytes → Bytes
admin_dest c rd = if is_nil rd then c.public_url ++ codes "/admin/" else login_redirect c rd

abbrev pub step_grant : Identity → ℕ → Grant
step_grant id now = record {
  kind = kind_normal;
  totp = true;
  pk = id.pk;
  auth = if id.auth == 0 then 1 else id.auth;
  card = 0;
  step = now;
}

unfoldable pub grant_step : SignInConfig → Directory → Identity → Bytes → ℕ → StepAnswer
grant_step c d id rd now =
    let m = c.gateway.manager in
    record {
      page = step_taken (admin_dest c rd);
      cookies =
          issue_session_grant m [] id.email (compute_groups c.gateway d id.email role_admin)
            (step_grant id now) (session_ttl m id) now;
    }

abbrev pub step_page : StepPage → StepAnswer
step_page p = record { page = p; cookies = [] }

module _ (validate : Bytes → Bytes → ℕ → Bool) (secret_of : Bytes → Option Bytes) (c : SignInConfig)
    (d : Directory) (cutoffs : SessionCutoffs) where
  abbrev pub code_attempt : StepAttempt → Identity → ℕ → Attempt
  code_attempt r id now = record { ip = r.ip; email = id.email; code = trim_space r.code; at = now }

  unfoldable pub answer_step : CodeReply → Identity → Bytes → ℕ → StepAnswer
  answer_step accepted id rd now = grant_step c d id rd (seconds now)
  answer_step too_many id rd now = step_page (step_again rd too_many)
  answer_step locked_out id rd now = step_page (step_again rd locked_out)
  answer_step wrong_code id rd now = step_page (step_again rd wrong_code)
  answer_step replayed id rd now = step_page (step_again rd replayed)

  -- from the check of the code on
  unfoldable pub check_step :
      CodeState → StepAttempt → Identity → Bytes → ℕ → CodeState × StepAnswer
  check_step s r id rd now =
      let (t, reply) =
        check_admin_code validate secret_of c.otp_max_attempts s (code_attempt r id now) in
      (t, answer_step reply id rd now)

  unfoldable pub handle_totp : CodeState → StepAttempt → ℕ → CodeState × StepAnswer
  handle_totp s r now =
      let rd = safe_redirect c.parse r.rd c.domain [] in
      if not (require_same_origin c r.from)
      then (s, step_page step_refused)
      else elim (step_up_session c d cutoffs r.cookies (seconds now)) [
        | none ↦ (s, step_page (step_login rd))
        | some id ↦
            if admin_tier_held c id (seconds now)
            then (s, step_page (step_held (admin_dest c rd)))
            else if not (verify_csrf c.gateway.manager r.cookies r.csrf (seconds now))
            then (s, step_page (step_expired rd))
            else check_step s r id rd now
      ]
