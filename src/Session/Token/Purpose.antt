-- ===== src/Session/Token/Purpose.antt =====
-- internal/session tokens: what a token is read back as, by its purpose and expiry.
use vps_scaffold_auth.Common.{
  ℕ, ◌≡◌, refl, ◌≢◌, inl, inr, Bool, true, false, ◌&&◌, none, some, [], ◌∷◌, ◌++◌, arith, leb,
  if◌then◌else◌, Option-cases, ◌==◌, Bytes, bytes_beq_iff, nat_eq, bytes_eq, pair_eq, beq_refl,
  is_nil, contains,
}
use vps_scaffold_auth.Common.Text.{cut}
use vps_scaffold_auth.Session.Token.{
  Json, Codec, dot, sign, verify_halves, verify, encode, open_envelope, decode,
}

cut-append : (c : ℕ) (s t : Bytes) → contains s c ≡ false → cut c (s ++ c ∷ t) ≡ some (s, t)
unfolding cut
cut-append c [] t h = ground arith
cut-append c (x ∷ s) t h = ground (arith, cut-append c s t)

-- A signed payload verifies to itself.
pub verify-sign : (c : Codec) (payload : Bytes) → verify c (sign c payload) ≡ some payload
unfolding verify sign verify_halves
verify-sign c payload = ground (
  arith,
  cut-append dot (c.b64_encode payload) (c.b64_encode (c.mac payload)) (c.b64_no_dot payload),
  c.b64_read_back payload,
  c.b64_read_back (c.mac payload),
  beq_refl (c.mac payload),
)

-- A token is accepted only with the hash of the payload it carries.
pub verify-some :
    (c : Codec) (token payload : Bytes)
    → verify c token ≡ some payload
    → (head : Bytes) × (tail : Bytes) × (cut dot token ≡ some (head, tail))
      × (c.b64_decode head ≡ some payload)
      × (c.b64_decode tail ≡ some (c.mac payload))
unfolding verify verify_halves
verify-some c token payload h = elim (Option-cases (cut dot token)) [
  | inl e ↦ ground arith
  | inr ((head, tail), e) ↦ elim (Option-cases (c.b64_decode head)) [
    | inl d ↦ ground arith
    | inr (p, d) ↦ elim (Option-cases (c.b64_decode tail)) [
      | inl t ↦ ground arith
      | inr (got, t) ↦ (head, tail, e, ground arith, ground (arith, bytes_beq_iff got (c.mac p)))
    ]
  ]
]

nil_of_append : (s t : Bytes) → is_nil (s ++ dot ∷ t) ≡ false
nil_of_append [] t = refl
nil_of_append (x ∷ s) t = refl

module _ {A : Type 0} (c : Codec) (json : Json A) where
  pub encode_ne_nil : (typ : Bytes) (v : A) (exp : ℕ) → is_nil (encode c json typ v exp) ≡ false
  unfolding encode sign
  encode_ne_nil typ v exp =
      let payload =
        c.envelope_json.marshal (record { typ = typ; exp = exp; body = json.marshal v }) in
      nil_of_append (c.b64_encode payload) (c.b64_encode (c.mac payload))

  -- The payload is plain, and so is the envelope that carries it.
  abbrev pub is_plain : Bytes → A → ℕ → Bool
  is_plain typ v exp =
      json.plain v && c.envelope_json.plain (record { typ = typ; exp = exp; body = json.marshal v })

  -- What `decode` makes of a token that `encode` minted of plain values: the payload, exactly when the
  -- purpose is the one it was minted for and it has not expired.
  pub decode-encode :
      (typ purpose : Bytes) (v : A) (exp now : ℕ)
      → typ ≢ []
      → is_plain typ v exp ≡ true
      → decode c json purpose (encode c json typ v exp) now
        ≡ (if typ == purpose && leb now exp then some v else none)
  unfolding decode encode open_envelope
  decode-encode typ purpose v exp now named plain = ground (
    arith,
    verify-sign c
        (c.envelope_json.marshal (record { typ = typ; exp = exp; body = json.marshal v })),
    c.envelope_json.read_back (record { typ = typ; exp = exp; body = json.marshal v })
        (ground arith),
    json.read_back v (ground arith),
  )
