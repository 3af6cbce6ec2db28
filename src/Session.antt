-- ===== src/Session.antt =====
-- internal/session/session.go: stateless signed cookies. Times are Unix seconds and lifetimes whole
-- seconds. The codecs (base64, JSON) and the keyed hash are parameters: the standard library's, used
-- through the laws of `Codec`.
pub mod Token
pub mod Cookies
pub mod Manager
pub mod Csrf
use vps_scaffold_auth.Common.{
  ℕ, zero, suc, ◌+◌, ◌-◌, ◌*◌, ◌/◌, ◌%◌, ◌≤◌, ◌<◌, max, String, ◌≡◌, refl, sym, ap, ◌∙◌, ◌≢◌, ◌↔◌,
  ◌⊎◌, inl, inr, Bool, true, false, not, ◌&&◌, ◌||◌, Option, none, some, List, [], ◌∷◌, ◌++◌, map,
  arith, ltb, leb, nat_beq, if◌then◌else◌, nat_beq_iff, ltb→lt, leb→le, Bool-cases, Option-cases,
  is_some, Eq, ◌==◌, Bytes, bytes_beq, bytes_beq_iff, pair_beq, nat_eq, bytes_eq, pair_eq, beq_refl,
  length, is_nil, drop, any, all, keep, count_if, contains, any-append, all-append, length-append,
  contains-append, contains-keep, all-contains,
}
use vps_scaffold_auth.Common.Text.{
  codes, is_space, lower, to_lower, trim_left, trim_right, trim_space, last_index, cons_head,
  split_by, split, fields_func, join, cut, has_prefix, has_suffix, trim_prefix,
}
use vps_scaffold_auth.Common.Table.{
  Table, lookup, delete, insert, lookup-delete, lookup-insert, length-delete-le, length-insert-le,
  keep_value, filter_values, IsKeyed, lookup-filter_values, filter_values-IsKeyed, insert-IsKeyed,
  delete-IsKeyed, length-insert_present, length-insert_absent, filter_keys, lookup-filter_keys,
}

abbrev pub session_cookie : Bytes
session_cookie = codes "vps_auth_session"

abbrev pub state_cookie : Bytes
state_cookie = codes "vps_auth_state"

abbrev pub pending_cookie : Bytes
pending_cookie = codes "vps_auth_pending"

abbrev pub offer_cookie : Bytes
offer_cookie = codes "vps_auth_bg_offer"

abbrev pub csrf_cookie : Bytes
csrf_cookie = codes "vps_auth_csrf"

abbrev pub passkey_login_cookie : Bytes
passkey_login_cookie = codes "vps_auth_pk_login"

abbrev pub passkey_reg_cookie : Bytes
passkey_reg_cookie = codes "vps_auth_pk_reg"

abbrev pub typ_session : Bytes
typ_session = codes "session"

abbrev pub typ_state : Bytes
typ_state = codes "state"

abbrev pub typ_pending : Bytes
typ_pending = codes "pending"

abbrev pub typ_offer : Bytes
typ_offer = codes "offer"

abbrev pub typ_csrf : Bytes
typ_csrf = codes "csrf"

abbrev pub typ_pk_login : Bytes
typ_pk_login = codes "pk_login"

abbrev pub typ_pk_reg : Bytes
typ_pk_reg = codes "pk_reg"

-- Session kinds; the empty text is a normal login.
abbrev pub kind_normal : Bytes
kind_normal = []

abbrev pub kind_break_glass : Bytes
kind_break_glass = codes "break_glass"

abbrev pub kind_guest : Bytes
kind_guest = codes "guest"

pub record Identity : Type 0 where
  pub email : Bytes
  pub groups : Bytes
  pub iat : ℕ
  pub kind : Bytes
  pub ttl : ℕ
  pub totp : Bool
  pub pk : ℕ
  pub auth : ℕ
  pub card : ℕ
  pub step : ℕ

pub record Grant : Type 0 where
  pub kind : Bytes
  pub totp : Bool
  pub pk : ℕ
  pub auth : ℕ
  pub card : ℕ
  pub step : ℕ

pub record PasskeyChallenge : Type 0 where
  pub challenge : Bytes
  pub email : Bytes
  pub handle : Bytes
  pub confirmed : Bool

pub record State : Type 0 where
  pub email : Bytes
  pub redirect : Bytes
  pub remember : Bool

pub record Pending : Type 0 where
  pub email : Bytes
  pub role : Bytes
  pub redirect : Bytes
  pub remember : Bool
  pub pk : ℕ

pub record Offer : Type 0 where
  pub code_id : ℕ
  pub label : Bytes
  pub gen : Bytes

pub record CsrfPayload : Type 0 where
  pub nonce : Bytes
  pub sub : Bytes
