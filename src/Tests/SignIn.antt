-- ===== src/Tests/SignIn.antt =====
-- Signing in at a concrete gateway.
use vps_scaffold_auth.Common.{
  ℕ, ◌≡◌, refl, ◌↔◌, Bool, true, false, not, ◌&&◌, none, some, List, [], ◌∷◌, arith, if◌then◌else◌,
  ◌==◌, Bytes, bytes_beq, nat_eq, bytes_eq, pair_eq, any,
}
use vps_scaffold_auth.Common.Text.{codes, to_lower, trim_space, cut}
use vps_scaffold_auth.Common.Table.{lookup, delete, insert, filter_values, filter_keys}
use vps_scaffold_auth.Session.Token.{verify_halves}
use vps_scaffold_auth.Authz.Redirect.{validate_redirect}
use vps_scaffold_auth.Authz.Redirect.{safe_redirect}
use vps_scaffold_auth.Session.Token.{sign}
use vps_scaffold_auth.Session.Token.{verify}
use vps_scaffold_auth.Session.Token.{open_envelope}
use vps_scaffold_auth.Session.Token.{decode}
use vps_scaffold_auth.Session.Token.{encode}
use vps_scaffold_auth.Server.Address.{valid_email, normalize_email}
use vps_scaffold_auth.Authz.Roles.{
  role_guest, role_user, domain_part, role, Policy, new_policy, role_admin, login_role,
}
use vps_scaffold_auth.Authz.Groups.{valid_group_name, has_group}
use vps_scaffold_auth.Session.{State, state_cookie, typ_state}
use vps_scaffold_auth.Session.Cookies.{cookie, Request}
use vps_scaffold_auth.Session.Manager.{
  set_cookie, read_typed, set_state, read_state, clear_state, clear_pending, issue_session_grant,
}
use vps_scaffold_auth.Ratelimit.{write, gc, refill, Limiter, new, allow}
use vps_scaffold_auth.Store.Codes.{
  has_recent_code, delete_expired_codes, compare_code, consume_code, count_guess, attempts_of, Code,
  Codes,
}
use vps_scaffold_auth.Server.Tier.{is_open_host, compute_groups}
use vps_scaffold_auth.Server.Sends.{Ledger, second_of}
use vps_scaffold_auth.Server.SignIn.{
  send_mail, mail_done, send_code, save_decoy_code, permitted, store_decoy_code, mail_saturated,
  mint, request_code, clamp_hint, trim_slashes, SignInConfig, SignInState, Outgoing, Origin,
  CodeRequest, CodeAttempt, Answer, require_same_origin, handle_request,
}
use vps_scaffold_auth.Server.SignIn.Attempt.{answer_attempt, try_code, handle_verify_code}
use vps_scaffold_auth.Server.SignIn.Hidden.{
  asks, tries, post, delivered, Moment, SamePosts, no_more, both, here_only, slots_left, replies,
  opens, with_policy, policy_hidden,
}
use vps_scaffold_auth.Server.SignIn.Cooldown.{IsKept, request-IsKept}
use vps_scaffold_auth.Server.SignIn.Sound.{signs_in, destination, IsGenuine, signs_in_iff}
use vps_scaffold_auth.Server.SignIn.Grade.{session_by_code}
use vps_scaffold_auth.Server.StepUp.{StepAttempt, handle_totp}
use vps_scaffold_auth.Server.StepUp.Taken.{takes_step, IsStep, admin_session, IsStep-iff}
use vps_scaffold_auth.Tests.Sessions.{ann, test_manager, signed_in}
use vps_scaffold_auth.Session.Manager.Renewal.{latest_value, sets_session}
use vps_scaffold_auth.Server.AdminCode.{seconds}
use vps_scaffold_auth.Session.{kind_guest, kind_normal}
use vps_scaffold_auth.Session.Token.Purpose.{decode-encode}
use vps_scaffold_auth.Tests.Codecs.{test_codec}
use vps_scaffold_auth.Tests.Gateway.{gateway, directory, quiet}
use vps_scaffold_auth.Tests.Guesses.{same_code, one_secret, ready}

abbrev config : SignInConfig
config = record {
  gateway = gateway;
  parse = λ s. none;
  parse_address = λ s. some s;
  hash_code = λ s. 7 ∷ s;
  domain = codes "x.org";
  public_url = codes "https://auth.x.org";
  public_origin = codes "https://auth.x.org";
  allow_apex_redirect = false;
  admin_emails = [];
  otp_ttl = 600;
  otp_resend_cooldown = 60;
  otp_max_attempts = 5;
  otp_max_total_attempts = 20;
  session_ttl = 3600;
  session_remember_ttl = 86400;
}

abbrev limiter : Limiter
limiter = new 5 60000000000

abbrev row : Code
row = record { code_hash = 7 ∷ codes "1234"; expires_at = 700; attempts = 0 }

abbrev stored : Codes
stored = record { codes = (ann, row) ∷ []; code_attempts = [] }

abbrev ledger : Ledger
ledger = record {
  codes = stored;
  ip_limiter = limiter;
  email_limiter = limiter;
  sends_per_ip = limiter;
  email_ceiling = limiter;
  email_daily = limiter;
  wrong_codes = limiter;
  auth_events = [];
}

abbrev outgoing : Outgoing
outgoing = record {
  mail_slots = 0;
  mail = [];
  notices = [];
  alerts = record { code_alerts = []; alerts_per_day = record { start = none; n = 0 } };
}

abbrev state : SignInState
state = record { ledger = ledger; outgoing = outgoing }

abbrev browser : Origin
browser = record { origin = []; sec_fetch_site = [] }

abbrev home : Bytes
home = codes "10.0.0.1"

abbrev asked : State
asked = record { email = ann; redirect = []; remember = false }

abbrev with_state : Request
with_state = (state_cookie, latest_value (set_state test_manager [] asked 600 100)) ∷ []

abbrev attempt : CodeAttempt
attempt = record { from = browser; cookies = with_state; ip = home; rd = []; code = codes "1234" }

abbrev wrong_attempt : CodeAttempt
wrong_attempt = record attempt { code = codes "9999" }

abbrev ask : CodeRequest
ask = record {
  from = browser;
  ip = home;
  email = ann;
  rd = [];
  remember = false;
  rqd = [];
  code = codes "5678";
}

-- second 110
abbrev moment : ℕ
moment = 110000000000

state_is_read : read_state test_manager with_state (second_of moment) ≡ some asked
unfolding read_state vps_scaffold_auth.Session.Manager.read_typed
    vps_scaffold_auth.Session.Cookies.cookie set_state vps_scaffold_auth.Session.Manager.set_cookie
    bytes_beq
state_is_read =
    decode-encode test_codec test_codec.state_json typ_state typ_state asked 700 110
      (λ h. absurd (ground arith)) refl

signs_in_iff_example :
    ((sets_session
          (handle_verify_code config directory quiet.cutoffs state attempt moment).1.cookies
        ≡ true)
      ↔ IsGenuine config state attempt moment)
    × (signs_in (handle_verify_code config directory quiet.cutoffs state attempt moment).1.page
        ≡ sets_session
            (handle_verify_code config directory quiet.cutoffs state attempt moment).1.cookies)
signs_in_iff_example = signs_in_iff config directory quiet.cutoffs state attempt moment

genuine : IsGenuine config state attempt moment
unfolding require_same_origin allow new refill lookup bytes_beq attempts_of trim_space login_role
    role to_lower new_policy domain_part
genuine = record {
  asked = asked;
  row = row;
  from_page = refl;
  cookie_read = state_is_read;
  within_limit = refl;
  live = record {
    stored = refl;
    in_time = omega arith;
    total_left = refl;
    source_left = omega arith;
  };
  matches = refl;
  permitted_there = refl;
}

abbrev guest : Bool
guest =
    login_role gateway.policy ann
      (is_open_host config.parse gateway (destination config attempt asked))
    == role_guest

abbrev code_groups : Bytes
code_groups = compute_groups gateway directory ann (if guest then role_guest else role_user)

session_by_code_example :
    ((handle_verify_code config directory quiet.cutoffs state attempt moment).1.cookies
      ≡ clear_pending test_manager (
          clear_state test_manager (
            issue_session_grant test_manager [] ann code_groups
              (record {
                kind = if guest then kind_guest else kind_normal;
                totp = false;
                pk = 0;
                auth = 0;
                card = 0;
                step = 0;
              })
              (if false && not guest then 86400 else 3600)
              (second_of moment))))
    × (has_group code_groups role_admin ≡ false)
unfolding valid_group_name genuine
session_by_code_example =
    session_by_code config directory quiet.cutoffs state attempt moment genuine refl refl

request-IsKept_example : IsKept stored (handle_request config state ask moment).0.ledger.codes ann
unfolding lookup bytes_beq normalize_email to_lower trim_space
request-IsKept_example =
    request-IsKept config state ask moment ann row (refl, tt) refl (omega arith) refl

-- second 200, when the address may be sent a new code
abbrev after_cooldown : ℕ
after_cooldown = 200000000000

abbrev history : List Moment
history =
    post (asks ask after_cooldown)
    ∷ delivered
    ∷ post (tries wrong_attempt quiet.cutoffs after_cooldown)
    ∷ []

-- the same posts under a policy that permits none of their addresses: nothing is delivered
abbrev undelivered : List Moment
undelivered =
    post (asks ask after_cooldown) ∷ post (tries wrong_attempt quiet.cutoffs after_cooldown) ∷ []

abbrev other_policy : Policy
other_policy = new_policy (codes "y.org" ∷ []) []

same_posts : SamePosts history undelivered
same_posts =
    both (asks ask after_cooldown)
      (here_only (both (tries wrong_attempt quiet.cutoffs after_cooldown) no_more))

none_accepted :
    any
      (λ (a : Answer). opens a.page)
      (replies (with_policy config gateway.policy) directory state history)
    ≡ false
unfolding replies handle_request require_same_origin trim_slashes allow new refill gc write lookup
    valid_email normalize_email to_lower trim_space bytes_beq clamp_hint request_code
    handle_verify_code read_state read_typed cookie set_state set_cookie encode decode open_envelope
    verify sign try_code answer_attempt vps_scaffold_auth.Store.Codes.consume_code
    vps_scaffold_auth.Store.Codes.compare_code vps_scaffold_auth.Store.Codes.delete_expired_codes
    vps_scaffold_auth.Store.Codes.has_recent_code vps_scaffold_auth.Store.Codes.attempts_of
    vps_scaffold_auth.Store.Codes.count_guess filter_values filter_keys insert delete mint
    safe_redirect validate_redirect cut verify_halves slots_left mail_saturated mail_done send_code
    save_decoy_code send_mail permitted store_decoy_code vps_scaffold_auth.Server.Sends.allow_send
    vps_scaffold_auth.Server.Sends.charge_daily vps_scaffold_auth.Server.Sends.charge_ceiling
    vps_scaffold_auth.Store.Codes.save_code vps_scaffold_auth.Store.Codes.drop_attempts login_role
    role domain_part new_policy
none_accepted = refl

slots_here : slots_left (with_policy config gateway.policy) directory state history ≡ true
unfolding replies handle_request require_same_origin trim_slashes allow new refill gc write lookup
    valid_email normalize_email to_lower trim_space bytes_beq clamp_hint request_code
    handle_verify_code read_state read_typed cookie set_state set_cookie encode decode open_envelope
    verify sign try_code answer_attempt vps_scaffold_auth.Store.Codes.consume_code
    vps_scaffold_auth.Store.Codes.compare_code vps_scaffold_auth.Store.Codes.delete_expired_codes
    vps_scaffold_auth.Store.Codes.has_recent_code vps_scaffold_auth.Store.Codes.attempts_of
    vps_scaffold_auth.Store.Codes.count_guess filter_values filter_keys insert delete mint
    safe_redirect validate_redirect cut verify_halves slots_left mail_saturated mail_done send_code
    save_decoy_code send_mail permitted store_decoy_code vps_scaffold_auth.Server.Sends.allow_send
    vps_scaffold_auth.Server.Sends.charge_daily vps_scaffold_auth.Server.Sends.charge_ceiling
    vps_scaffold_auth.Store.Codes.save_code vps_scaffold_auth.Store.Codes.drop_attempts login_role
    role domain_part new_policy
slots_here = refl

slots_there : slots_left (with_policy config other_policy) directory state undelivered ≡ true
unfolding replies handle_request require_same_origin trim_slashes allow new refill gc write lookup
    valid_email normalize_email to_lower trim_space bytes_beq clamp_hint request_code
    handle_verify_code read_state read_typed cookie set_state set_cookie encode decode open_envelope
    verify sign try_code answer_attempt vps_scaffold_auth.Store.Codes.consume_code
    vps_scaffold_auth.Store.Codes.compare_code vps_scaffold_auth.Store.Codes.delete_expired_codes
    vps_scaffold_auth.Store.Codes.has_recent_code vps_scaffold_auth.Store.Codes.attempts_of
    vps_scaffold_auth.Store.Codes.count_guess filter_values filter_keys insert delete mint
    safe_redirect validate_redirect cut verify_halves slots_left mail_saturated mail_done send_code
    save_decoy_code send_mail permitted store_decoy_code vps_scaffold_auth.Server.Sends.allow_send
    vps_scaffold_auth.Server.Sends.charge_daily vps_scaffold_auth.Server.Sends.charge_ceiling
    vps_scaffold_auth.Store.Codes.save_code vps_scaffold_auth.Store.Codes.drop_attempts login_role
    role domain_part new_policy
slots_there = refl

policy_hidden_example :
    replies (with_policy config gateway.policy) directory state history
    ≡ replies (with_policy config other_policy) directory state undelivered
policy_hidden_example =
    policy_hidden config directory gateway.policy other_policy state state history undelivered
      same_posts refl slots_here slots_there none_accepted

abbrev step_attempt : StepAttempt
step_attempt = record {
  from = browser;
  cookies = signed_in;
  ip = home;
  rd = [];
  csrf = codes "t";
  code = codes "s1";
}

IsStep-iff_example :
    let a =
      (handle_totp same_code one_secret config directory quiet.cutoffs ready step_attempt
        moment).1 in
    ((sets_session a.cookies ≡ true) ↔ (
      (g : IsStep same_code one_secret config directory quiet.cutoffs ready step_attempt moment)
      × (a.cookies
          ≡ admin_session same_code one_secret config directory quiet.cutoffs g.id
              (seconds moment))))
    × (takes_step a.page ≡ sets_session a.cookies)
IsStep-iff_example =
    IsStep-iff same_code one_secret config directory quiet.cutoffs ready step_attempt moment tt
