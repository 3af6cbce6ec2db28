-- ===== src/Session/Token.antt =====
-- `Signer`, `envelope`, `encode` and `decode`.
pub mod Purpose
use vps_scaffold_auth.Common.{
  ℕ, zero, suc, ◌+◌, ◌-◌, ◌*◌, ◌/◌, ◌%◌, ◌≤◌, ◌<◌, max, String, ◌≡◌, refl, sym, ap, ◌∙◌, ◌≢◌, ◌↔◌,
  ◌⊎◌, inl, inr, Bool, true, false, not, ◌&&◌, ◌||◌, Option, none, some, List, [], ◌∷◌, ◌++◌, map,
  arith, ltb, leb, nat_beq, if◌then◌else◌, nat_beq_iff, ltb→lt, leb→le, Bool-cases, Option-cases,
  is_some, Eq, ◌==◌, Bytes, bytes_beq, bytes_beq_iff, pair_beq, nat_eq, bytes_eq, pair_eq, beq_refl,
  length, is_nil, drop, any, all, keep, count_if, contains, any-append, all-append, length-append,
  contains-append, contains-keep, all-contains,
}
use vps_scaffold_auth.Common.Text.{
  codes, is_space, lower, to_lower, trim_left, trim_right, trim_space, last_index, cons_head,
  split_by, split, fields_func, join, cut, has_prefix, has_suffix, trim_prefix,
}
use vps_scaffold_auth.Common.Table.{
  Table, lookup, delete, insert, lookup-delete, lookup-insert, length-delete-le, length-insert-le,
  keep_value, filter_values, IsKeyed, lookup-filter_values, filter_values-IsKeyed, insert-IsKeyed,
  delete-IsKeyed, length-insert_present, length-insert_absent, filter_keys, lookup-filter_keys,
}
use vps_scaffold_auth.Session.{Identity, PasskeyChallenge, State, Pending, Offer, CsrfPayload}

-- What a signed token carries: the purpose, the expiry and the marshalled payload.
pub record Envelope : Type 0 where
  pub typ : Bytes
  pub exp : ℕ
  pub body : Bytes

-- `encoding/json` for one type. A value that is plain, its texts being valid UTF-8, is read back as
-- it was; in another the package puts replacement characters.
pub record Json (A : Type 0) : Type 0 where
  pub marshal : A → Bytes
  pub unmarshal : Bytes → Option A
  pub plain : A → Bool
  pub read_back : (a : A) → plain a ≡ true → unmarshal (marshal a) ≡ some a

abbrev pub dot : ℕ
dot = b'.'

-- The hash under the manager's secret, unpadded URL base64, whose alphabet has no dot, and JSON for
-- each type that a cookie carries.
pub record Codec : Type 0 where
  pub mac : Bytes → Bytes
  pub b64_encode : Bytes → Bytes
  pub b64_decode : Bytes → Option Bytes
  pub b64_read_back : (s : Bytes) → b64_decode (b64_encode s) ≡ some s
  pub b64_no_dot : (s : Bytes) → contains (b64_encode s) dot ≡ false
  pub envelope_json : Json Envelope
  pub identity_json : Json Identity
  pub state_json : Json State
  pub pending_json : Json Pending
  pub offer_json : Json Offer
  pub challenge_json : Json PasskeyChallenge
  pub csrf_json : Json CsrfPayload

unfoldable pub sign : Codec → Bytes → Bytes
sign c payload = c.b64_encode payload ++ dot ∷ c.b64_encode (c.mac payload)

-- from the two halves of the token on
unfoldable pub verify_halves : Codec → Bytes → Bytes → Option Bytes
verify_halves c head tail = elim (c.b64_decode head) [
  | none ↦ none
  | some payload ↦ elim (c.b64_decode tail) [
    | none ↦ none
    | some got ↦ if got == c.mac payload then some payload else none
  ]
]

unfoldable pub verify : Codec → Bytes → Option Bytes
verify c token = elim (cut dot token) [
  | none ↦ none
  | some (head, tail) ↦ verify_halves c head tail
]

module _ {A : Type 0} where
  unfoldable pub encode : Codec → Json A → Bytes → A → ℕ → Bytes
  encode c json typ v exp =
      sign c (c.envelope_json.marshal (record { typ = typ; exp = exp; body = json.marshal v }))

  -- from the parsed envelope on
  unfoldable pub open_envelope : Json A → Bytes → ℕ → Envelope → Option A
  open_envelope json typ now env =
      if is_nil env.typ || not (env.typ == typ)
      then none
      else if ltb env.exp now
      then none
      else json.unmarshal env.body

  unfoldable pub decode : Codec → Json A → Bytes → Bytes → ℕ → Option A
  decode c json typ token now = elim (verify c token) [
    | none ↦ none
    | some raw ↦ elim (c.envelope_json.unmarshal raw) [
      | none ↦ none
      | some env ↦ open_envelope json typ now env
    ]
  ]
