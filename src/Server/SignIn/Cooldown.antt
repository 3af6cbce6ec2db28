-- ===== src/Server/SignIn/Cooldown.antt =====
-- What a request for a code leaves of the codes that are stored.
use vps_scaffold_auth.Common.{
  ℕ, ◌+◌, ◌-◌, ◌≤◌, ◌≡◌, refl, ◌∙◌, inl, inr, false, not, ◌&&◌, some, arith, ltb, Bool-cases,
  is_some, ◌==◌, Bytes, bytes_beq_iff, nat_eq, bytes_eq, pair_eq,
}
use vps_scaffold_auth.Common.Table.{
  Table, lookup, lookup-insert, filter_values, IsKeyed, lookup-filter_values, lookup-filter_keys,
}
use vps_scaffold_auth.Server.SignIn.{
  SignInConfig, SignInState, CodeRequest, require_same_origin, declined, store_decoy_code,
  send_code, save_decoy_code, mail_saturated, permitted, mint, request_code, handle_request,
}
use vps_scaffold_auth.Server.Address.{normalize_email, valid_email}
use vps_scaffold_auth.Ratelimit.{allow}
use vps_scaffold_auth.Store.Codes.{
  Code, Codes, save_code, ensure_code, has_recent_code, delete_expired_codes, drop_attempts,
  attempts_of,
}
use vps_scaffold_auth.Server.Sends.{Ledger, second_of, allow_send, charge_daily, charge_ceiling}

-- The code of an address and the wrong guesses counted against it are the same in two tables.
pub record IsKept (s t : Codes) (email : Bytes) : Type 0 where
  pub code_kept : lookup email t.codes ≡ lookup email s.codes
  pub attempts_kept : (ip : Bytes) → attempts_of t email ip ≡ attempts_of s email ip

IsKept-refl : (s : Codes) (email : Bytes) → IsKept s s email
IsKept-refl s email = record { code_kept = refl; attempts_kept = λ ip. refl }

attempts-dropped :
    (email other ip : Bytes) (t : Table (Bytes × Bytes) ℕ)
    → (email == other) ≡ false
    → lookup (other, ip) (drop_attempts email t) ≡ lookup (other, ip) t
attempts-dropped email other ip t h = ground (
  arith,
  lookup-filter_keys (λ (k : Bytes × Bytes). not (k.0 == email)) (other, ip) t,
  bytes_beq_iff email other,
  bytes_beq_iff other email,
)

save-IsKept :
    (s : Codes) (email other hash : Bytes) (at : ℕ)
    → (email == other) ≡ false
    → IsKept s (save_code s email hash at) other
unfolding save_code attempts_of
save-IsKept s email other hash at h = record {
  code_kept = ground (
    arith,
    lookup-insert email other (record { code_hash = hash; expires_at = at; attempts = 0 }) s.codes,
  );
  attempts_kept = λ ip. ground (arith, attempts-dropped email other ip s.code_attempts);
}

ensure-IsKept :
    (s : Codes) (email other hash : Bytes) (at : ℕ)
    → ((email == other) && not (is_some (lookup other s.codes))) ≡ false
    → IsKept s (ensure_code s email hash at) other
unfolding ensure_code attempts_of
ensure-IsKept s email other hash at h = record {
  code_kept = ground (
    arith,
    bytes_beq_iff email other,
    lookup-insert email other (record { code_hash = hash; expires_at = at; attempts = 0 }) s.codes,
  );
  attempts_kept = λ ip. ground arith;
}

pruned-IsKept :
    (s : Codes) (email : Bytes) (row : Code) (now : ℕ)
    → IsKeyed s.codes
    → lookup email s.codes ≡ some row
    → ltb row.expires_at now ≡ false
    → IsKept s (delete_expired_codes s now) email
unfolding delete_expired_codes attempts_of
pruned-IsKept s email row now k e h =
    let same = lookup-filter_values (λ (c : Code). not (ltb c.expires_at now)) email s.codes k in
    record {
      code_kept = ground (arith, same);
      attempts_kept = λ ip. ground (
        arith,
        same,
        lookup-filter_keys
            (λ (i : Bytes × Bytes).
              is_some
                (lookup i.0 (filter_values (λ (c : Code). not (ltb c.expires_at now)) s.codes)))
            (email, ip) s.code_attempts,
      );
    }

IsKept-trans :
    (s t u : Codes) (email : Bytes) → IsKept s t email → IsKept t u email → IsKept s u email
IsKept-trans s t u email h k = record {
  code_kept = k.code_kept ∙ h.code_kept;
  attempts_kept = λ ip. k.attempts_kept ip ∙ h.attempts_kept ip;
}

codes-allow_send :
    (s : Ledger) (email ip : Bytes) (now : ℕ) → (allow_send s email ip now).ledger.codes ≡ s.codes
unfolding allow_send charge_daily charge_ceiling
codes-allow_send s email ip now = ground arith

-- when the code was minted: within the cooldown
abbrev pub fresh_from : SignInConfig → ℕ → ℕ
fresh_from c now = second_of now + c.otp_ttl - c.otp_resend_cooldown

mint-IsKept :
    (c : SignInConfig) (s : SignInState) (asked rd email : Bytes) (r : CodeRequest) (now : ℕ)
    (row : Code)
    → lookup email s.ledger.codes.codes ≡ some row
    → ((asked == email) && not (ltb (fresh_from c now) row.expires_at)) ≡ false
    → IsKept s.ledger.codes (mint c s asked rd r now).ledger.codes email
unfolding mint store_decoy_code send_code save_decoy_code has_recent_code
mint-IsKept c s asked rd email r now row e h =
    let codes = s.ledger.codes in
    let same = codes-allow_send s.ledger asked r.ip now in
    let decoy =
      ensure-IsKept codes asked email (c.hash_code r.code) (fresh_from c now) (ground arith) in
    elim (Bool-cases (mail_saturated s.outgoing)) [
      | inl a ↦ rw (a, mint) decoy
      | inr a ↦ elim (Bool-cases (has_recent_code codes asked (fresh_from c now))) [
        | inl b ↦ rw (a, b, mint) (IsKept-refl codes email)
        | inr b ↦
            let saved =
              save-IsKept codes asked email (c.hash_code r.code) (second_of now + c.otp_ttl)
                (ground (arith, bytes_beq_iff asked email)) in
            elim (Bool-cases (allow_send s.ledger asked r.ip now).may_send) [
              | inr d ↦ rw (a, b, d, mint, same) decoy
              | inl d ↦ elim (Bool-cases (permitted c asked rd)) [
                | inl p ↦ rw (a, b, d, p, mint, same) saved
                | inr p ↦ rw (a, b, d, p, mint, same) saved
              ]
            ]
      ]
    ]

-- A request changes no other address's live code, and within the resend cooldown not the code of its
-- own address either: neither the code nor any count of wrong guesses against it.
pub request-IsKept :
    (c : SignInConfig) (s : SignInState) (r : CodeRequest) (now : ℕ) (email : Bytes) (row : Code)
    → IsKeyed s.ledger.codes.codes
    → lookup email s.ledger.codes.codes ≡ some row
    → second_of now ≤ row.expires_at
    → ((normalize_email r.email == email) && not (ltb (fresh_from c now) row.expires_at)) ≡ false
    → IsKept s.ledger.codes (handle_request c s r now).0.ledger.codes email
unfolding handle_request request_code
request-IsKept c s r now email row k e live h =
    let keeps = IsKept-refl s.ledger.codes email in
    elim (Bool-cases (require_same_origin c r.from)) [
      | inr a ↦ rw (a, handle_request) keeps
      | inl a ↦ elim (Bool-cases (allow s.ledger.ip_limiter r.ip now).1) [
        | inr b ↦ rw (a, b, handle_request) keeps
        | inl b ↦ elim (Bool-cases (valid_email c.parse_address (normalize_email r.email))) [
          | inr v ↦ rw (a, b, v, handle_request) keeps
          | inl v ↦ elim (Bool-cases (declined r)) [
            | inl g ↦ rw (a, b, v, g, handle_request) keeps
            | inr g ↦
                let pruned =
                  pruned-IsKept s.ledger.codes email row (second_of now) k e (ground arith) in
                rw (a, b, v, g, handle_request)
                  (IsKept-trans s.ledger.codes (delete_expired_codes s.ledger.codes (second_of now))
                    _ email pruned
                    (mint-IsKept c _ (normalize_email r.email) _ email r now row
                      (pruned.code_kept ∙ e) h))
          ]
        ]
      ]
    ]
