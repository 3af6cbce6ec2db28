-- ===== src/Session/Csrf.antt =====
-- The signed double-submit token of the forms.
pub mod Binding
use vps_scaffold_auth.Common.{
  ℕ, zero, suc, ◌+◌, ◌-◌, ◌*◌, ◌/◌, ◌%◌, ◌≤◌, ◌<◌, max, String, ◌≡◌, refl, sym, ap, ◌∙◌, ◌≢◌, ◌↔◌,
  ◌⊎◌, inl, inr, Bool, true, false, not, ◌&&◌, ◌||◌, Option, none, some, List, [], ◌∷◌, ◌++◌, map,
  arith, ltb, leb, nat_beq, if◌then◌else◌, nat_beq_iff, ltb→lt, leb→le, Bool-cases, Option-cases,
  is_some, Eq, ◌==◌, Bytes, bytes_beq, bytes_beq_iff, pair_beq, nat_eq, bytes_eq, pair_eq, beq_refl,
  length, is_nil, drop, any, all, keep, count_if, contains, any-append, all-append, length-append,
  contains-append, contains-keep, all-contains,
}
use vps_scaffold_auth.Common.Text.{
  codes, is_space, lower, to_lower, trim_left, trim_right, trim_space, last_index, cons_head,
  split_by, split, fields_func, join, cut, has_prefix, has_suffix, trim_prefix,
}
use vps_scaffold_auth.Common.Table.{
  Table, lookup, delete, insert, lookup-delete, lookup-insert, length-delete-le, length-insert-le,
  keep_value, filter_values, IsKeyed, lookup-filter_values, filter_values-IsKeyed, insert-IsKeyed,
  delete-IsKeyed, length-insert_present, length-insert_absent, filter_keys, lookup-filter_keys,
}
use vps_scaffold_auth.Session.{Identity, CsrfPayload, csrf_cookie, typ_csrf}
use vps_scaffold_auth.Session.Token.{encode, decode}
use vps_scaffold_auth.Session.Cookies.{Request, Response, cookie}
use vps_scaffold_auth.Session.Manager.{Manager, set_cookie, read_session, read_typed}

unfoldable pub csrf_sub : Manager → Request → ℕ → Bytes
csrf_sub m r now = elim (read_session m r now) [ none ↦ [] | some id ↦ id.email ]

-- the token that `EnsureCSRF` finds valid and bound to this session, if any
unfoldable pub current_csrf : Manager → Request → ℕ → Option Bytes
current_csrf m r now = elim (cookie csrf_cookie r) [
  | none ↦ none
  | some token ↦ elim (decode m.codec m.codec.csrf_json typ_csrf token now) [
    | none ↦ none
    | some p ↦ if p.sub == csrf_sub m r now then some token else none
  ]
]

-- `nonce` is what the random source returned.
unfoldable pub ensure_csrf : Manager → Response → Request → Bytes → ℕ → ℕ → Response × Bytes
ensure_csrf m w r nonce ttl now = elim (current_csrf m r now) [
  | some token ↦ (w, token)
  | none ↦
      let p : CsrfPayload = record { nonce = nonce; sub = csrf_sub m r now } in
      let token = encode m.codec m.codec.csrf_json typ_csrf p (now + ttl) in
      (set_cookie m w csrf_cookie token [] ttl, token)
]

unfoldable pub verify_csrf : Manager → Request → Bytes → ℕ → Bool
verify_csrf m r submitted now = if is_nil submitted then false else elim (cookie csrf_cookie r) [
  | none ↦ false
  | some token ↦
      if not (token == submitted)
      then false
      else elim (decode m.codec m.codec.csrf_json typ_csrf token now) [
        | none ↦ false
        | some p ↦ p.sub == csrf_sub m r now
      ]
]
