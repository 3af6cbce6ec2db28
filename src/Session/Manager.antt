-- ===== src/Session/Manager.antt =====
-- `Manager`: the typed cookies.
pub mod Renewal
use vps_scaffold_auth.Common.{
  ℕ, zero, suc, ◌+◌, ◌-◌, ◌*◌, ◌/◌, ◌%◌, ◌≤◌, ◌<◌, max, String, ◌≡◌, refl, sym, ap, ◌∙◌, ◌≢◌, ◌↔◌,
  ◌⊎◌, inl, inr, Bool, true, false, not, ◌&&◌, ◌||◌, Option, none, some, List, [], ◌∷◌, ◌++◌, map,
  arith, ltb, leb, nat_beq, if◌then◌else◌, nat_beq_iff, ltb→lt, leb→le, Bool-cases, Option-cases,
  is_some, Eq, ◌==◌, Bytes, bytes_beq, bytes_beq_iff, pair_beq, nat_eq, bytes_eq, pair_eq, beq_refl,
  length, is_nil, drop, any, all, keep, count_if, contains, any-append, all-append, length-append,
  contains-append, contains-keep, all-contains,
}
use vps_scaffold_auth.Common.Text.{
  codes, is_space, lower, to_lower, trim_left, trim_right, trim_space, last_index, cons_head,
  split_by, split, fields_func, join, cut, has_prefix, has_suffix, trim_prefix,
}
use vps_scaffold_auth.Common.Table.{
  Table, lookup, delete, insert, lookup-delete, lookup-insert, length-delete-le, length-insert-le,
  keep_value, filter_values, IsKeyed, lookup-filter_values, filter_values-IsKeyed, insert-IsKeyed,
  delete-IsKeyed, length-insert_present, length-insert_absent, filter_keys, lookup-filter_keys,
}
use vps_scaffold_auth.Session.{
  Identity, Grant, PasskeyChallenge, State, Pending, Offer, session_cookie, state_cookie,
  pending_cookie, offer_cookie, passkey_login_cookie, passkey_reg_cookie, typ_session, typ_state,
  typ_pending, typ_offer, typ_pk_login, typ_pk_reg, kind_break_glass,
}
use vps_scaffold_auth.Session.Token.{Json, Codec, encode, decode}
use vps_scaffold_auth.Session.Cookies.{Request, Response, SetCookie, cookie, only_cookie}

pub record Manager : Type 0 where
  pub codec : Codec
  pub ttl : ℕ
  pub renew : ℕ
  pub cookie_domain : Bytes
  pub secure : Bool

unfoldable pub set_cookie : Manager → Response → Bytes → Bytes → Bytes → ℕ → Response
set_cookie m w name value domain ttl =
    record {
      name = name;
      value = value;
      path = codes "/";
      domain = domain;
      max_age = some ttl;
      secure = m.secure;
      http_only = true;
      same_site_lax = true;
    }
    ∷ w

unfoldable pub clear_cookie : Manager → Response → Bytes → Bytes → Response
clear_cookie m w name domain =
    record {
      name = name;
      value = [];
      path = codes "/";
      domain = domain;
      max_age = none;
      secure = m.secure;
      http_only = true;
      same_site_lax = true;
    }
    ∷ w

-- the identity that `IssueSessionGrant` signs
unfoldable pub granted_identity : Bytes → Bytes → Grant → ℕ → ℕ → Identity
granted_identity email groups g ttl now = record {
  email = email;
  groups = groups;
  iat = now;
  kind = g.kind;
  ttl = ttl;
  totp = g.totp;
  pk = g.pk;
  auth = if g.auth == 0 then now else g.auth;
  card = g.card;
  step = g.step;
}

abbrev pub chosen_ttl : Manager → ℕ → ℕ
chosen_ttl m ttl = if ttl == 0 then m.ttl else ttl

unfoldable pub issue_session_grant : Manager → Response → Bytes → Bytes → Grant → ℕ → ℕ → Response
issue_session_grant m w email groups g ttl now =
    let life = chosen_ttl m ttl in
    let id = granted_identity email groups g life now in
    set_cookie m w session_cookie (encode m.codec m.codec.identity_json typ_session id (now + life))
      m.cookie_domain life

unfoldable pub issue_session_ttl :
    Manager → Response → Bytes → Bytes → Bytes → Bool → ℕ → ℕ → Response
issue_session_ttl m w email groups kind totp ttl now =
    issue_session_grant m w email groups
      (record { kind = kind; totp = totp; pk = 0; auth = 0; card = 0; step = 0 }) ttl now

unfoldable pub issue_session : Manager → Response → Bytes → Bytes → ℕ → Response
issue_session m w email groups now = issue_session_ttl m w email groups [] false m.ttl now

unfoldable pub read_session : Manager → Request → ℕ → Option Identity
read_session m r now = elim (only_cookie none session_cookie r) [
  | none ↦ none
  | some token ↦ decode m.codec m.codec.identity_json typ_session token now
]

unfoldable pub needs_renew : Manager → Identity → ℕ → Bool
needs_renew m id now = if id.kind == kind_break_glass then false else ltb (id.iat + m.renew) now

unfoldable pub session_ttl : Manager → Identity → ℕ
session_ttl m id = if ltb 0 id.ttl then id.ttl else m.ttl

unfoldable pub clear_session : Manager → Response → Response
clear_session m w = clear_cookie m w session_cookie m.cookie_domain

-- the host-only cookies: one typed payload each, read from the first cookie of the name
unfoldable pub read_typed : {A : Type 0} → Codec → Json A → Bytes → Bytes → Request → ℕ → Option A
read_typed c json name typ r now = elim (cookie name r) [
  | none ↦ none
  | some token ↦ decode c json typ token now
]

unfoldable pub set_state : Manager → Response → State → ℕ → ℕ → Response
set_state m w st ttl now =
    set_cookie m w state_cookie (encode m.codec m.codec.state_json typ_state st (now + ttl)) [] ttl

unfoldable pub read_state : Manager → Request → ℕ → Option State
read_state m = read_typed m.codec m.codec.state_json state_cookie typ_state

unfoldable pub clear_state : Manager → Response → Response
clear_state m w = clear_cookie m w state_cookie []

unfoldable pub set_pending : Manager → Response → Pending → ℕ → ℕ → Response
set_pending m w p ttl now =
    set_cookie m w pending_cookie (encode m.codec m.codec.pending_json typ_pending p (now + ttl)) []
      ttl

unfoldable pub read_pending : Manager → Request → ℕ → Option Pending
read_pending m = read_typed m.codec m.codec.pending_json pending_cookie typ_pending

unfoldable pub clear_pending : Manager → Response → Response
clear_pending m w = clear_cookie m w pending_cookie []

unfoldable pub set_offer : Manager → Response → Offer → ℕ → ℕ → Response
set_offer m w o ttl now =
    set_cookie m w offer_cookie (encode m.codec m.codec.offer_json typ_offer o (now + ttl)) [] ttl

unfoldable pub read_offer : Manager → Request → ℕ → Option Offer
read_offer m = read_typed m.codec m.codec.offer_json offer_cookie typ_offer

unfoldable pub clear_offer : Manager → Response → Response
clear_offer m w = clear_cookie m w offer_cookie []

unfoldable pub pk_cookie : Manager → Bool → Bytes × Bytes
pk_cookie m register =
    let name = if register then passkey_reg_cookie else passkey_login_cookie in
    let typ = if register then typ_pk_reg else typ_pk_login in
    (if m.secure then codes "__Host-" ++ name else name, typ)

unfoldable pub set_passkey_challenge :
    Manager → Response → Bool → PasskeyChallenge → ℕ → ℕ → Response
set_passkey_challenge m w register c ttl now =
    set_cookie m w (pk_cookie m register).0
      (encode m.codec m.codec.challenge_json (pk_cookie m register).1 c (now + ttl)) [] ttl

unfoldable pub read_passkey_challenge : Manager → Request → Bool → ℕ → Option PasskeyChallenge
read_passkey_challenge m r register now =
    elim (read_typed m.codec m.codec.challenge_json (pk_cookie m register).0
      (pk_cookie m register).1 r now) [
        | none ↦ none
        | some pc ↦ if is_nil pc.challenge then none else some pc
      ]

unfoldable pub clear_passkey_challenge : Manager → Response → Bool → Response
clear_passkey_challenge m w register = clear_cookie m w (pk_cookie m register).0 []
