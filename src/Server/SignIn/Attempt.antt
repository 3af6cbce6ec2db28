-- ===== src/Server/SignIn/Attempt.antt =====
-- internal/server/handlers.go: `handleVerifyCode`, `completeLogin` and where they send a person on.
use vps_scaffold_auth.Common.{
  ℕ, Bool, false, not, ◌&&◌, Option, none, some, [], ◌∷◌, ◌++◌, if◌then◌else◌, ◌==◌, Bytes, nat_eq,
  bytes_eq, pair_eq, is_nil,
}
use vps_scaffold_auth.Common.Text.{codes, to_lower, trim_space, trim_prefix}
use vps_scaffold_auth.Server.SignIn.{
  SignInConfig, SignInState, CodeAttempt, Page, Answer, cross_origin, onward, restart,
  too_many_attempts, not_permitted, wrong_code, locked_out, code_expired, signed_in, page_only,
  require_same_origin, send_alert,
}
use vps_scaffold_auth.Authz.Roles.{role_deny, role_guest, login_role}
use vps_scaffold_auth.Authz.Redirect.{validate_redirect, safe_redirect}
use vps_scaffold_auth.Session.{Identity, Grant, State, kind_normal, kind_guest}
use vps_scaffold_auth.Session.Manager.{read_state, clear_state, clear_pending, issue_session_grant}
use vps_scaffold_auth.Ratelimit.{allow, refund}
use vps_scaffold_auth.Store.Codes.{
  ConsumeResult, consume_ok, consume_no_code, consume_expired, consume_mismatch,
  consume_too_many_attempts, consume_burned, consume_code,
}
use vps_scaffold_auth.Server.Tier.{Directory, tier_role, is_open_host, compute_groups}
use vps_scaffold_auth.Server.Cutoffs.{SessionCutoffs, read_live_session}
use vps_scaffold_auth.Server.Alerts.{burned}
use vps_scaffold_auth.Server.Sends.{
  event_verify, event_login, outcome_ok, outcome_wrong_code, outcome_expired, outcome_locked_out,
  outcome_denied, second_of,
}

-- `servedTarget`: a path of the configured domain is never the bare apex unless that is allowed
unfoldable pub served_target : SignInConfig → Bytes → Option Bytes
served_target c raw = elim (validate_redirect c.parse raw c.domain) [
  | none ↦ none
  | some target ↦ elim (c.parse target) [
    | none ↦ none
    | some u ↦
        if not c.allow_apex_redirect
          && to_lower u.hostname == to_lower (trim_prefix c.domain (codes "."))
        then none
        else some target
  ]
]

unfoldable pub login_redirect : SignInConfig → Bytes → Bytes
login_redirect c rd = elim (served_target c rd) [
  | none ↦ c.public_url ++ codes "/welcome"
  | some target ↦ target
]

unfoldable pub record_auth : SignInState → Bytes → Bytes → Bytes → Bytes → ℕ → SignInState
record_auth s email event_type outcome ip now = record s {
  ledger = record s.ledger {
    auth_events =
        record {
          email = email;
          event_type = event_type;
          outcome = outcome;
          client_ip = ip;
          created_at = second_of now;
        }
        ∷ s.ledger.auth_events;
  };
}

abbrev pub login_kind : Bytes → Bytes
login_kind role = if role == role_guest then kind_guest else kind_normal

abbrev pub login_grant : Bytes → Bool → ℕ → ℕ → Grant
login_grant role totp_verified pk now = record {
  kind = login_kind role;
  totp = totp_verified;
  pk = pk;
  auth = 0;
  card = 0;
  step = if totp_verified then second_of now else 0;
}

-- the identity that `completeLogin` hands to `tierRole`
abbrev pub step_identity : Bool → ℕ → Identity
step_identity totp_verified now = record {
  email = [];
  groups = [];
  iat = 0;
  kind = kind_normal;
  ttl = 0;
  totp = totp_verified;
  pk = 0;
  auth = 0;
  card = 0;
  step = if totp_verified then second_of now else 0;
}

unfoldable pub login_groups : SignInConfig → Directory → Bytes → Bytes → Bool → ℕ → Bytes
login_groups c d email role totp_verified now =
    compute_groups c.gateway d email
      (tier_role c.gateway (some (step_identity totp_verified now)) role (second_of now))

unfoldable pub login_ttl : SignInConfig → Bytes → Bool → ℕ
login_ttl c role remember =
    if remember && not (login_kind role == kind_guest)
    then c.session_remember_ttl
    else c.session_ttl

unfoldable pub complete_login :
    SignInConfig
    → Directory
    → SignInState
    → State
    → Bytes
    → Bytes
    → Bytes
    → Bool
    → ℕ
    → ℕ
    → SignInState × Answer
complete_login c d s st ip role rd totp_verified pk now =
    let m = c.gateway.manager in
    let issued =
      issue_session_grant m [] st.email (login_groups c d st.email role totp_verified now)
        (login_grant role totp_verified pk now) (login_ttl c role st.remember) (second_of now) in
    (
      record_auth s st.email event_login outcome_ok ip now,
      record {
        page = signed_in (login_redirect c rd);
        cookies = clear_pending m (clear_state m issued);
      },
    )

-- a page that ends the attempt: the state cookie is cleared
unfoldable pub give_up : SignInConfig → Page → Answer
give_up c p = record { page = p; cookies = clear_state c.gateway.manager [] }

unfoldable pub accept_login :
    SignInConfig → Directory → SignInState → State → Bytes → Bytes → ℕ → SignInState × Answer
accept_login c d s st ip rd now =
    let t : SignInState = record s {
      ledger = record s.ledger { wrong_codes = refund s.ledger.wrong_codes ip now };
    } in
    let role = login_role c.gateway.policy st.email (is_open_host c.parse c.gateway rd) in
    if role == role_deny
    then (record_auth t st.email event_verify outcome_denied ip now, give_up c (not_permitted rd))
    else complete_login c d (record_auth t st.email event_verify outcome_ok ip now) st ip role rd
        false 0 now

-- the switch of `handleVerifyCode`
unfoldable pub answer_attempt :
    SignInConfig
    → Directory
    → SignInState
    → State
    → Bytes
    → Bytes
    → ConsumeResult
    → ℕ
    → SignInState × Answer
answer_attempt c d s st ip rd consume_ok now = accept_login c d s st ip rd now
answer_attempt c d s st ip rd consume_mismatch now = (
  record_auth s st.email event_verify outcome_wrong_code ip now,
  page_only (wrong_code st.email rd),
)
answer_attempt c d s st ip rd consume_too_many_attempts now =
    (record_auth s st.email event_verify outcome_locked_out ip now, give_up c (locked_out rd))
answer_attempt c d s st ip rd consume_burned now = (
  record_auth (record s { outgoing = send_alert c s.outgoing st.email burned now }) st.email
      event_verify outcome_locked_out ip now,
  give_up c (locked_out rd),
)
answer_attempt c d s st ip rd consume_expired now =
    (record_auth s st.email event_verify outcome_expired ip now, give_up c (code_expired rd))
answer_attempt c d s st ip rd consume_no_code now =
    (record_auth s st.email event_verify outcome_expired ip now, give_up c (code_expired rd))

-- with the state cookie read, from the charge on
unfoldable pub try_code :
    SignInConfig → Directory → SignInState → State → CodeAttempt → Bytes → ℕ → SignInState × Answer
try_code c d s st r rd now =
    let (wrong, ok) = allow s.ledger.wrong_codes r.ip now in
    let (left, result) =
      consume_code s.ledger.codes st.email r.ip (c.hash_code (trim_space r.code)) c.otp_max_attempts
        c.otp_max_total_attempts (second_of now) in
    if not ok
    then (
      record s { ledger = record s.ledger { wrong_codes = wrong } },
      page_only (too_many_attempts st.email rd),
    )
    else answer_attempt c d
        (record s { ledger = record s.ledger { wrong_codes = wrong; codes = left } }) st r.ip rd
        result now

unfoldable pub handle_verify_code :
    SignInConfig → Directory → SessionCutoffs → SignInState → CodeAttempt → ℕ → SignInState × Answer
handle_verify_code c d cutoffs s r now =
    let g = c.gateway in
    let posted = safe_redirect c.parse r.rd c.domain [] in
    if not (require_same_origin c r.from)
    then (s, page_only cross_origin)
    else elim (read_state g.manager r.cookies (second_of now)) [
      | some st ↦ try_code c d s st r (if is_nil posted then st.redirect else posted) now
      | none ↦
          elim (read_live_session g.manager g.session_max_age cutoffs r.cookies (second_of now)) [
            | some id ↦ (s, page_only (onward (login_redirect c posted)))
            | none ↦ (s, page_only (restart posted))
          ]
    ]
