-- ===== src/Server/SignIn.antt =====
-- internal/server/handlers.go: `handleRequest`, `handleVerifyCode` and `completeLogin`, the sign-in
-- by an emailed code, and the slots of the mail that is under way. The code that `otp.Generate` draws
-- comes with the request; net/mail, the keyed hash of a code and the client's IP are parameters. The page
-- that may offer a passkey after a sign-in, in place of the redirect, is not modelled.
pub mod Attempt
pub mod Cooldown
pub mod Grade
pub mod Hidden
pub mod Sound
use vps_scaffold_auth.Common.{
  ℕ, zero, suc, ◌+◌, ◌-◌, ◌*◌, ◌/◌, ◌%◌, ◌≤◌, ◌<◌, max, String, ◌≡◌, refl, sym, ap, ◌∙◌, ◌≢◌, ◌↔◌,
  ◌⊎◌, inl, inr, Bool, true, false, not, ◌&&◌, ◌||◌, Option, none, some, List, [], ◌∷◌, ◌++◌, map,
  arith, ltb, leb, nat_beq, if◌then◌else◌, nat_beq_iff, ltb→lt, leb→le, Bool-cases, Option-cases,
  is_some, Eq, ◌==◌, Bytes, bytes_beq, bytes_beq_iff, pair_beq, nat_eq, bytes_eq, pair_eq, beq_refl,
  length, is_nil, drop, any, all, keep, count_if, contains, any-append, all-append, length-append,
  contains-append, contains-keep, all-contains,
}
use vps_scaffold_auth.Common.Text.{
  codes, is_space, lower, to_lower, trim_left, trim_right, trim_space, last_index, cons_head,
  split_by, split, fields_func, join, cut, has_prefix, has_suffix, trim_prefix,
}
use vps_scaffold_auth.Common.Table.{
  Table, lookup, delete, insert, lookup-delete, lookup-insert, length-delete-le, length-insert-le,
  keep_value, filter_values, IsKeyed, lookup-filter_values, filter_values-IsKeyed, insert-IsKeyed,
  delete-IsKeyed, length-insert_present, length-insert_absent, filter_keys, lookup-filter_keys,
}
use vps_scaffold_auth.Server.Address.{AddressParser, normalize_email, valid_email}
use vps_scaffold_auth.Authz.Roles.{Policy, at_sign, role_deny, role_guest, role_admin, login_role}
use vps_scaffold_auth.Authz.Access.{can_access_app}
use vps_scaffold_auth.Authz.Redirect.{Parser, validate_redirect, safe_redirect}
use vps_scaffold_auth.Session.{Identity, Grant, State, kind_normal, kind_guest}
use vps_scaffold_auth.Session.Cookies.{Request, Response}
use vps_scaffold_auth.Session.Manager.{
  Manager, set_state, read_state, clear_state, clear_pending, issue_session_grant,
}
use vps_scaffold_auth.Ratelimit.{allow, refund}
use vps_scaffold_auth.Store.Codes.{
  Codes, ConsumeResult, consume_ok, consume_no_code, consume_expired, consume_mismatch,
  consume_too_many_attempts, consume_burned, save_code, ensure_code, has_recent_code,
  delete_expired_codes, consume_code,
}
use vps_scaffold_auth.Server.Tier.{Gateway, Directory, tier_role, is_open_host, compute_groups}
use vps_scaffold_auth.Server.Cutoffs.{SessionCutoffs, read_live_session}
use vps_scaffold_auth.Server.Alerts.{Alerts, Notice, CodeAlert, daily, burned, alert_about_codes}
use vps_scaffold_auth.Server.Sends.{
  AuthEvent, event_verify, event_login, outcome_ok, outcome_wrong_code, outcome_expired,
  outcome_locked_out, outcome_denied, Ledger, second_of, SendDecision, allow_send,
}

pub record SignInConfig : Type 0 where
  pub gateway : Gateway
  pub parse : Parser
  pub parse_address : AddressParser  -- the bare address that net/mail reads
  pub hash_code : Bytes → Bytes
  pub domain : Bytes
  pub public_url : Bytes
  pub public_origin : Bytes
  pub allow_apex_redirect : Bool
  pub admin_emails : List Bytes
  pub otp_ttl : ℕ
  pub otp_resend_cooldown : ℕ
  pub otp_max_attempts : ℕ
  pub otp_max_total_attempts : ℕ
  pub session_ttl : ℕ
  pub session_remember_ttl : ℕ

-- What is sent: the codes, each to its address, with how many of them are under way, each in a slot of
-- its own; and the notices to administrators, with the limits on those.
pub record Outgoing : Type 0 where
  pub mail_slots : ℕ
  pub mail : List (Bytes × Bytes)
  pub notices : List Notice
  pub alerts : Alerts

pub record SignInState : Type 0 where
  pub ledger : Ledger
  pub outgoing : Outgoing

-- the form's origin headers
pub record Origin : Type 0 where
  pub origin : Bytes
  pub sec_fetch_site : Bytes

-- what is posted to /request
pub record CodeRequest : Type 0 where
  pub from : Origin
  pub ip : Bytes
  pub email : Bytes
  pub rd : Bytes
  pub remember : Bool
  pub rqd : Bytes
  pub code : Bytes

-- what is posted to /verify-code
pub record CodeAttempt : Type 0 where
  pub from : Origin
  pub cookies : Request
  pub ip : Bytes
  pub rd : Bytes
  pub code : Bytes

pub data Page : Type 0 where
  cross_origin : Page
  too_many_requests : Page
  bad_address : Page
  domain_declined : Page
  enter_code : Bytes → Bytes → Bool → Page  -- the address, the destination, whether to remember
  onward : Bytes → Page  -- a redirect of a person already signed in
  restart : Bytes → Page
  too_many_attempts : Bytes → Bytes → Page
  not_permitted : Bytes → Page
  wrong_code : Bytes → Bytes → Page
  locked_out : Bytes → Page
  code_expired : Bytes → Page
  signed_in : Bytes → Page  -- a redirect with a new session

pub record Answer : Type 0 where
  pub page : Page
  pub cookies : Response

abbrev pub page_only : Page → Answer
page_only p = record { page = p; cookies = [] }

unfoldable pub trim_slashes : Bytes → Bytes
trim_slashes [] = []
trim_slashes (c ∷ s) =
    let rest = trim_slashes s in if nat_beq c b'/' && is_nil rest then [] else c ∷ rest

unfoldable pub require_same_origin : SignInConfig → Origin → Bool
require_same_origin c o =
    if not (is_nil o.origin)
      && (not (o.origin == codes "null")
          && not (to_lower (trim_slashes o.origin) == to_lower c.public_origin))
    then false
    else is_nil o.sec_fetch_site
      || (o.sec_fetch_site == codes "same-origin" || o.sec_fetch_site == codes "none")

unfoldable pub clamp_hint : Bytes → Bytes
clamp_hint s = let t = trim_space s in if ltb 512 (length t) then [] else t

unfoldable pub store_decoy_code : SignInConfig → Codes → Bytes → Bytes → ℕ → Codes
store_decoy_code c s email code now =
    ensure_code s email (c.hash_code code) (second_of now + c.otp_ttl - c.otp_resend_cooldown)

abbrev pub max_mail_sends : ℕ
max_mail_sends = 16

unfoldable pub mail_saturated : Outgoing → Bool
mail_saturated o = leb max_mail_sends o.mail_slots

-- a message is under way in a slot of its own, or lost if there is none
unfoldable pub send_mail : Outgoing → Bytes × Bytes → Outgoing
send_mail o message =
    if ltb o.mail_slots max_mail_sends
    then record o { mail_slots = o.mail_slots + 1; mail = message ∷ o.mail }
    else o

-- the goroutine of a message gives its slot back
unfoldable pub mail_done : Outgoing → Outgoing
mail_done o = record o { mail_slots = o.mail_slots - 1 }

abbrev pub with_codes : SignInState → Codes → SignInState
with_codes s t = record s { ledger = record s.ledger { codes = t } }

unfoldable pub send_code : SignInConfig → SignInState → Bytes → Bytes → ℕ → SignInState
send_code c s email code now = record {
  ledger = record s.ledger {
    codes = save_code s.ledger.codes email (c.hash_code code) (second_of now + c.otp_ttl);
  };
  outgoing = send_mail s.outgoing (email, code);
}

unfoldable pub save_decoy_code : SignInConfig → SignInState → Bytes → Bytes → ℕ → SignInState
save_decoy_code c s email code now =
    with_codes s (save_code s.ledger.codes email (c.hash_code code) (second_of now + c.otp_ttl))

unfoldable pub permitted : SignInConfig → Bytes → Bytes → Bool
permitted c email rd =
    not (login_role c.gateway.policy email (is_open_host c.parse c.gateway rd) == role_deny)

unfoldable pub send_alert : SignInConfig → Outgoing → Bytes → CodeAlert → ℕ → Outgoing
send_alert c o addr kind now =
    let (alerts, notices) =
      alert_about_codes c.gateway.policy c.admin_emails o.alerts addr kind now in
    record o { alerts = alerts; notices = notices ++ o.notices }

-- what `allowSend` leaves, and the alert that it sends
abbrev pub after_send_check : SignInConfig → SignInState → Bytes → SendDecision → ℕ → SignInState
after_send_check c s email d now = record {
  ledger = d.ledger;
  outgoing = if d.daily_spent then send_alert c s.outgoing email daily now else s.outgoing;
}

-- the switch of `handleRequest`
unfoldable pub mint : SignInConfig → SignInState → Bytes → Bytes → CodeRequest → ℕ → SignInState
mint c s email rd r now =
    if mail_saturated s.outgoing
    then with_codes s (store_decoy_code c s.ledger.codes email r.code now)
    else if has_recent_code s.ledger.codes email (second_of now + c.otp_ttl - c.otp_resend_cooldown)
    then s
    else (let d = allow_send s.ledger email r.ip now in
        let t = after_send_check c s email d now in
        if d.may_send
        then (if permitted c email rd
            then send_code c t email r.code now
            else save_decoy_code c t email r.code now)
        else with_codes t (store_decoy_code c t.ledger.codes email r.code now))

unfoldable pub request_code :
    SignInConfig → SignInState → Ledger → Bytes → Bytes → CodeRequest → ℕ → SignInState × Answer
request_code c s ledger email rd r now =
    let pruned : SignInState = record s {
      ledger = record ledger { codes = delete_expired_codes ledger.codes (second_of now) };
    } in
    let state : State = record { email = email; redirect = rd; remember = r.remember } in
    (
      mint c pruned email rd r now,
      record {
        page = enter_code email rd r.remember;
        cookies = set_state c.gateway.manager [] state c.otp_ttl (second_of now);
      },
    )

-- the test of the early decline
abbrev pub declined : CodeRequest → Bool
declined r =
    let rqd = clamp_hint r.rqd in
    not (is_nil rqd) && not (can_access_app (normalize_email r.email) [] false false rqd [] false)

unfoldable pub handle_request : SignInConfig → SignInState → CodeRequest → ℕ → SignInState × Answer
handle_request c s r now =
    let (limiter, ok) = allow s.ledger.ip_limiter r.ip now in
    let ledger = record s.ledger { ip_limiter = limiter } in
    let email = normalize_email r.email in
    if not (require_same_origin c r.from)
    then (s, page_only cross_origin)
    else if not ok
    then (record s { ledger = ledger }, page_only too_many_requests)
    else if not (valid_email c.parse_address email)
    then (record s { ledger = ledger }, page_only bad_address)
    else if declined r
    then (record s { ledger = ledger }, page_only domain_declined)
    else request_code c s ledger email (safe_redirect c.parse r.rd c.domain []) r now
