-- ===== src/Store/Codes/Outcome.antt =====
-- When a code is accepted, and what each outcome leaves behind.
use vps_scaffold_auth.Common.{
  ℕ, ◌+◌, ◌≤◌, ◌<◌, ◌≡◌, ap, ◌≢◌, ◌↔◌, ◌⊎◌, inl, inr, Bool, true, false, not, ◌&&◌, none, some,
  arith, if◌then◌else◌, Option-cases, ◌==◌, Bytes, bytes_beq_iff, nat_eq, bytes_eq, pair_eq,
  beq_refl,
}
use vps_scaffold_auth.Common.Table.{lookup, lookup-delete, lookup-insert, lookup-filter_keys}
use vps_scaffold_auth.Store.Codes.{
  Code, Codes, ConsumeResult, consume_ok, consume_no_code, consume_expired, consume_burned,
  clear_code, attempts_of, spent_total, count_guess, compare_code, consume_code,
}

pub lookup-clear_code :
    (s : Codes) (email other : Bytes)
    → lookup other (clear_code s email).codes
      ≡ (if email == other then none else lookup other s.codes)
unfolding clear_code
lookup-clear_code s email other = lookup-delete email other s.codes

-- A code is live for a source: it has not expired, and neither the code's own total nor the
-- source's budget of wrong guesses is spent.
pub record IsLive (s : Codes) (email ip : Bytes) (max_attempts max_total now : ℕ) (c : Code)
    : Type 0 where
  pub stored : lookup email s.codes ≡ some c
  pub in_time : now ≤ c.expires_at
  pub total_left : spent_total max_total c.attempts ≡ false
  pub source_left : attempts_of s email ip < max_attempts

module _ (s : Codes) (email ip candidate : Bytes) (max_attempts max_total now : ℕ) where
  abbrev outcome : Codes × ConsumeResult
  outcome = consume_code s email ip candidate max_attempts max_total now

  -- A guess is accepted exactly when it matches a code that is live for its source.
  pub consume_ok_iff :
      (outcome.1 ≡ consume_ok)
      ↔ ((c : Code) × IsLive s email ip max_attempts max_total now c × (c.code_hash ≡ candidate))
  unfolding consume_code compare_code
  consume_ok_iff = (
    λ h. elim (Option-cases (lookup email s.codes)) [
      | inl e ↦ ground arith
      | inr (c, e) ↦ (
        c,
        record {
          stored = e;
          in_time = ground arith;
          total_left = ground arith;
          source_left = ground arith;
        },
        ground (arith, bytes_beq_iff c.code_hash candidate),
      )
    ],
    λ (c, live, same). ground (arith, live.stored, bytes_beq_iff c.code_hash candidate),
  )

-- The outcomes that end a code.
abbrev pub ends : ConsumeResult → Bool
ends consume_ok = true
ends consume_expired = true
ends consume_burned = true
ends _ = false

no_code :
    (s : Codes) (email ip candidate : Bytes) (max_attempts max_total now : ℕ)
    → lookup email s.codes ≡ none
    → consume_code s email ip candidate max_attempts max_total now ≡ (s, consume_no_code)
unfolding consume_code
no_code s email ip candidate max_attempts max_total now e = ground arith

attempts-cleared : (s : Codes) (email ip : Bytes) → attempts_of (clear_code s email) email ip ≡ 0
unfolding attempts_of clear_code
attempts-cleared s email ip = ground (
  arith,
  lookup-filter_keys (λ (k : Bytes × Bytes). not (k.0 == email)) (email, ip) s.code_attempts,
  beq_refl email,
)

attempts-other :
    (s : Codes) (email other ip : Bytes)
    → (other == email) ≡ false
    → attempts_of (clear_code s email) other ip ≡ attempts_of s other ip
unfolding attempts_of clear_code
attempts-other s email other ip ne = ground (
  arith,
  lookup-filter_keys (λ (k : Bytes × Bytes). not (k.0 == email)) (other, ip) s.code_attempts,
)

pub attempts-counted :
    (s : Codes) (email ip other source : Bytes) (c : Code)
    → attempts_of (count_guess s email ip c) other source ≡ (
        if (email == other) && (ip == source)
        then attempts_of s email ip + 1
        else attempts_of s other source)
unfolding attempts_of count_guess
attempts-counted s email ip other source c =
    ground (
      arith,
      lookup-insert (email, ip) (other, source) (attempts_of s email ip + 1) s.code_attempts,
    )

pub lookup-counted :
    (s : Codes) (email ip other : Bytes) (c : Code)
    → lookup other (count_guess s email ip c).codes ≡ (
        if email == other
        then some (record c { attempts = c.attempts + 1 })
        else lookup other s.codes)
unfolding count_guess
lookup-counted s email ip other c =
    lookup-insert email other (record c { attempts = c.attempts + 1 }) s.codes

module _ (s : Codes) (email ip candidate : Bytes) (max_attempts max_total now : ℕ) where
  abbrev after : Codes × ConsumeResult
  after = consume_code s email ip candidate max_attempts max_total now

  ended : ends after.1 ≡ true → lookup email after.0.codes ≡ none
  unfolding consume_code compare_code
  ended h = elim (Option-cases (lookup email s.codes)) [
    | inl e ↦ ground arith
    | inr (c, e) ↦ ground (
      arith,
      lookup-clear_code s email email,
      lookup-clear_code (count_guess s email ip c) email email,
      beq_refl email,
    )
  ]

  -- A code is used once: after a guess that is accepted, or that ends the code by its expiry or by
  -- its total of wrong guesses, no further guess finds a code.
  pub consume_once :
      (ip' candidate' : Bytes) (m m' t : ℕ)
      → ends after.1 ≡ true
      → (consume_code after.0 email ip' candidate' m m' t).1 ≡ consume_no_code
  consume_once ip' candidate' m m' t h =
      ap (λ (r : Codes × ConsumeResult). r.1)
        (no_code after.0 email ip' candidate' m m' t (ended h))

  -- A guess for one address changes no other address's code and no other address's counters.
  pub consume_frame :
      (other source : Bytes)
      → other ≢ email
      → (lookup other after.0.codes ≡ lookup other s.codes)
        × (attempts_of after.0 other source ≡ attempts_of s other source)
  unfolding consume_code compare_code
  consume_frame other source ne = elim (Option-cases (lookup email s.codes)) [
    | inl e ↦ ground arith
    | inr (c, e) ↦ ground (
      arith,
      bytes_beq_iff email other,
      bytes_beq_iff other email,
      lookup-clear_code s email other,
      lookup-clear_code (count_guess s email ip c) email other,
      lookup-counted s email ip other c,
      attempts-other s email other source,
      attempts-other (count_guess s email ip c) email other source,
      attempts-counted s email ip other source c,
    )
  ]

  -- A wrong guess that does not end the code leaves it in place with one more attempt, counts one
  -- attempt of its own source and none of any other source; a guess from a source whose budget is
  -- spent changes nothing.
  pub consume_wrong :
      (c : Code) (source : Bytes)
      → lookup email s.codes ≡ some c
      → ends after.1 ≡ false
      → (after.0 ≡ s)
        ⊎ ((lookup email after.0.codes ≡ some (record c { attempts = c.attempts + 1 }))
            × (attempts_of after.0 email source ≡ (
                if ip == source then attempts_of s email ip + 1 else attempts_of s email source)))
  unfolding consume_code compare_code
  consume_wrong c source e h = ground (
    arith,
    beq_refl email,
    lookup-counted s email ip email c,
    attempts-counted s email ip email source c,
  )
