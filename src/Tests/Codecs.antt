-- ===== src/Tests/Codecs.antt =====
-- A codec to run the program with: a hash that adds a byte, a text of the bytes moved past the dot,
-- and a marshalling of each cookie's payload as its numbers followed by its texts with their lengths.
use vps_scaffold_auth.Common.{
  ℕ, zero, suc, ◌+◌, ◌-◌, ◌≡◌, refl, inl, inr, Bool, true, false, Option, none, some, [], ◌∷◌, ◌++◌,
  arith, nat_beq, if◌then◌else◌, Bool-cases, Bytes, nat_eq, bytes_eq, pair_eq, length, contains,
}
use vps_scaffold_auth.Session.{Identity, State, Pending, Offer, PasskeyChallenge, CsrfPayload}
use vps_scaffold_auth.Session.Token.{Envelope, Codec, dot}

abbrev put : Bytes → Bytes → Bytes
put s rest = length s ∷ s ++ rest

abbrev take_bytes : ℕ → Bytes → Option (Bytes × Bytes)
take_bytes zero s = some ([], s)
take_bytes (suc n) [] = none
take_bytes (suc n) (c ∷ s) = elim (take_bytes n s) [ none ↦ none | some (h, t) ↦ some (c ∷ h, t) ]

abbrev get : Bytes → Option (Bytes × Bytes)
get [] = none
get (n ∷ s) = take_bytes n s

take_bytes-append : (s t : Bytes) → take_bytes (length s) (s ++ t) ≡ some (s, t)
take_bytes-append [] t = refl
take_bytes-append (c ∷ s) t = rw (take_bytes-append s t)

get-put : (s t : Bytes) → get (put s t) ≡ some (s, t)
get-put s t = take_bytes-append s t

abbrev flag : Bool → ℕ
flag b = if b then 1 else 0

abbrev moved : Bytes → Bytes
moved [] = []
moved (c ∷ s) = (c + 47) ∷ moved s

abbrev moved_back : Bytes → Bytes
moved_back [] = []
moved_back (c ∷ s) = (c - 47) ∷ moved_back s

pub moved_back-moved : (s : Bytes) → some (moved_back (moved s)) ≡ some s
moved_back-moved [] = refl
moved_back-moved (c ∷ s) = ground (arith, moved_back-moved s)

pub moved_no_dot : (s : Bytes) → contains (moved s) dot ≡ false
moved_no_dot [] = refl
moved_no_dot (c ∷ s) = ground (arith, moved_no_dot s)

abbrev envelope_to : Envelope → Bytes
envelope_to x = x.exp ∷ put x.typ x.body

abbrev envelope_of : Bytes → Option Envelope
envelope_of [] = none
envelope_of (exp ∷ rest) = elim (get rest) [
  | none ↦ none
  | some (typ, body) ↦ some (record { exp = exp; typ = typ; body = body })
]

pub envelope_read_back : (x : Envelope) → envelope_of (envelope_to x) ≡ some x
envelope_read_back x = ground (arith, get-put x.typ x.body)

abbrev identity_to : Identity → Bytes
identity_to x =
    x.iat
    ∷ x.ttl
    ∷ x.pk
    ∷ x.auth
    ∷ x.card
    ∷ x.step
    ∷ flag x.totp
    ∷ put x.email (put x.groups x.kind)

abbrev identity_of : Bytes → Option Identity
identity_of [] = none
identity_of (iat ∷ []) = none
identity_of (iat ∷ ttl ∷ []) = none
identity_of (iat ∷ ttl ∷ pk ∷ []) = none
identity_of (iat ∷ ttl ∷ pk ∷ auth ∷ []) = none
identity_of (iat ∷ ttl ∷ pk ∷ auth ∷ card ∷ []) = none
identity_of (iat ∷ ttl ∷ pk ∷ auth ∷ card ∷ step ∷ []) = none
identity_of (iat ∷ ttl ∷ pk ∷ auth ∷ card ∷ step ∷ totp ∷ rest) = elim (get rest) [
  | none ↦ none
  | some (email, rest1) ↦ elim (get rest1) [
    | none ↦ none
    | some (groups, kind) ↦ some (record {
      iat = iat;
      ttl = ttl;
      pk = pk;
      auth = auth;
      card = card;
      step = step;
      totp = nat_beq totp 1;
      email = email;
      groups = groups;
      kind = kind;
    })
  ]
]

pub identity_read_back : (x : Identity) → identity_of (identity_to x) ≡ some x
identity_read_back x = elim (Bool-cases x.totp) [
  | inl q ↦ ground (arith, get-put x.email (put x.groups x.kind), get-put x.groups x.kind)
  | inr q ↦ ground (arith, get-put x.email (put x.groups x.kind), get-put x.groups x.kind)
]

abbrev state_to : State → Bytes
state_to x = flag x.remember ∷ put x.email x.redirect

abbrev state_of : Bytes → Option State
state_of [] = none
state_of (remember ∷ rest) = elim (get rest) [
  | none ↦ none
  | some (email, redirect) ↦
      some (record { remember = nat_beq remember 1; email = email; redirect = redirect })
]

pub state_read_back : (x : State) → state_of (state_to x) ≡ some x
state_read_back x = elim (Bool-cases x.remember) [
  | inl q ↦ ground (arith, get-put x.email x.redirect)
  | inr q ↦ ground (arith, get-put x.email x.redirect)
]

abbrev pending_to : Pending → Bytes
pending_to x = x.pk ∷ flag x.remember ∷ put x.email (put x.role x.redirect)

abbrev pending_of : Bytes → Option Pending
pending_of [] = none
pending_of (pk ∷ []) = none
pending_of (pk ∷ remember ∷ rest) = elim (get rest) [
  | none ↦ none
  | some (email, rest1) ↦ elim (get rest1) [
    | none ↦ none
    | some (role, redirect) ↦ some (record {
      pk = pk;
      remember = nat_beq remember 1;
      email = email;
      role = role;
      redirect = redirect;
    })
  ]
]

pub pending_read_back : (x : Pending) → pending_of (pending_to x) ≡ some x
pending_read_back x = elim (Bool-cases x.remember) [
  | inl q ↦ ground (arith, get-put x.email (put x.role x.redirect), get-put x.role x.redirect)
  | inr q ↦ ground (arith, get-put x.email (put x.role x.redirect), get-put x.role x.redirect)
]

abbrev offer_to : Offer → Bytes
offer_to x = x.code_id ∷ put x.label x.gen

abbrev offer_of : Bytes → Option Offer
offer_of [] = none
offer_of (code_id ∷ rest) = elim (get rest) [
  | none ↦ none
  | some (label, gen) ↦ some (record { code_id = code_id; label = label; gen = gen })
]

pub offer_read_back : (x : Offer) → offer_of (offer_to x) ≡ some x
offer_read_back x = ground (arith, get-put x.label x.gen)

abbrev challenge_to : PasskeyChallenge → Bytes
challenge_to x = flag x.confirmed ∷ put x.challenge (put x.email x.handle)

abbrev challenge_of : Bytes → Option PasskeyChallenge
challenge_of [] = none
challenge_of (confirmed ∷ rest) = elim (get rest) [
  | none ↦ none
  | some (challenge, rest1) ↦ elim (get rest1) [
    | none ↦ none
    | some (email, handle) ↦ some (record {
      confirmed = nat_beq confirmed 1;
      challenge = challenge;
      email = email;
      handle = handle;
    })
  ]
]

pub challenge_read_back : (x : PasskeyChallenge) → challenge_of (challenge_to x) ≡ some x
challenge_read_back x = elim (Bool-cases x.confirmed) [
  | inl q ↦ ground (arith, get-put x.challenge (put x.email x.handle), get-put x.email x.handle)
  | inr q ↦ ground (arith, get-put x.challenge (put x.email x.handle), get-put x.email x.handle)
]

abbrev csrf_to : CsrfPayload → Bytes
csrf_to x = put x.nonce x.sub

abbrev csrf_of : Bytes → Option CsrfPayload
csrf_of rest = elim (get rest) [
  | none ↦ none
  | some (nonce, sub) ↦ some (record { nonce = nonce; sub = sub })
]

pub csrf_read_back : (x : CsrfPayload) → csrf_of (csrf_to x) ≡ some x
csrf_read_back x = ground (arith, get-put x.nonce x.sub)

abbrev pub test_codec : Codec
test_codec = record {
  mac = λ s. 7 ∷ s;
  b64_encode = moved;
  b64_decode = λ s. some (moved_back s);
  b64_read_back = moved_back-moved;
  b64_no_dot = moved_no_dot;
  envelope_json = record {
    marshal = envelope_to;
    unmarshal = envelope_of;
    plain = λ x. true;
    read_back = λ x h. envelope_read_back x;
  };
  identity_json = record {
    marshal = identity_to;
    unmarshal = identity_of;
    plain = λ x. true;
    read_back = λ x h. identity_read_back x;
  };
  state_json = record {
    marshal = state_to;
    unmarshal = state_of;
    plain = λ x. true;
    read_back = λ x h. state_read_back x;
  };
  pending_json = record {
    marshal = pending_to;
    unmarshal = pending_of;
    plain = λ x. true;
    read_back = λ x h. pending_read_back x;
  };
  offer_json = record {
    marshal = offer_to;
    unmarshal = offer_of;
    plain = λ x. true;
    read_back = λ x h. offer_read_back x;
  };
  challenge_json = record {
    marshal = challenge_to;
    unmarshal = challenge_of;
    plain = λ x. true;
    read_back = λ x h. challenge_read_back x;
  };
  csrf_json = record {
    marshal = csrf_to;
    unmarshal = csrf_of;
    plain = λ x. true;
    read_back = λ x h. csrf_read_back x;
  };
}
