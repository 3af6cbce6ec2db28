-- ===== src/Store/Codes/Budget.antt =====
-- How many candidates a guesser can have compared with one stored code.
use vps_scaffold_auth.Common.{
  ℕ, suc, ◌+◌, ◌-◌, ◌≤◌, ◌<◌, ◌≡◌, inl, inr, Bool, true, false, ◌&&◌, none, some, List, [], ◌∷◌,
  arith, if◌then◌else◌, Option-cases, ◌==◌, Bytes, bytes_beq_iff, nat_eq, bytes_eq, pair_eq,
  beq_refl,
}
use vps_scaffold_auth.Common.Table.{lookup}
use vps_scaffold_auth.Store.Codes.{
  Code, Codes, ConsumeResult, consume_ok, attempts_of, count_guess, compare_code, consume_code,
}
use vps_scaffold_auth.Store.Codes.Outcome.{lookup-clear_code, lookup-counted, attempts-counted}

-- one call of `ConsumeCode` for the address
pub record Guess : Type 0 where
  pub client_ip : Bytes
  pub candidate : Bytes
  pub at : ℕ

module _ (email : Bytes) (max_attempts max_total : ℕ) where
  pub guess : Codes → Guess → Codes × ConsumeResult
  guess s g = consume_code s email g.client_ip g.candidate max_attempts max_total g.at

  abbrev pub accepted : ConsumeResult → Bool
  accepted consume_ok = true
  accepted _ = false

  -- A guess at this moment is a real one: with the stored code's own hash it would be accepted.
  unfoldable pub compared : Codes → Guess → Bool
  compared s g = elim (lookup email s.codes) [
    | none ↦ false
    | some c ↦ accepted (guess s (record g { candidate = c.code_hash })).1
  ]

  -- A guess that is not real says nothing of its candidate.
  pub guess_blind :
      (s : Codes) (g : Guess) (other : Bytes)
      → compared s g ≡ false
      → guess s (record g { candidate = other }) ≡ guess s g
  unfolding guess compared consume_code compare_code
  guess_blind s g other h = elim (Option-cases (lookup email s.codes)) [
    | inl e ↦ ground arith
    | inr (c, e) ↦ ground (arith, beq_refl c.code_hash)
  ]

  -- The guesses of a history that are real, counted where the test on the source holds.
  pub compared_count : (Bytes → Bool) → Codes → List Guess → ℕ
  compared_count p s [] = 0
  compared_count p s (g ∷ gs) =
      let rest = compared_count p (guess s g).0 gs in
      if compared s g && p g.client_ip then suc rest else rest

  left_total : Codes → ℕ
  left_total s = elim (lookup email s.codes) [ none ↦ 0 | some c ↦ max_total - c.attempts ]

  left_source : Bytes → Codes → ℕ
  left_source ip s = elim (lookup email s.codes) [
    | none ↦ 0
    | some c ↦ max_attempts - attempts_of s email ip
  ]

  abbrev one : Bool → ℕ
  one b = if b then 1 else 0

  total_step :
      (s : Codes) (g : Guess)
      → 0 < max_total
      → one (compared s g) + left_total (guess s g).0 ≤ left_total s
  unfolding guess compared left_total consume_code compare_code
  total_step s g pos = elim (Option-cases (lookup email s.codes)) [
    | inl e ↦ ground arith
    | inr (c, e) ↦ ground (
      arith,
      beq_refl email,
      beq_refl c.code_hash,
      lookup-clear_code s email email,
      lookup-clear_code (count_guess s email g.client_ip c) email email,
      lookup-counted s email g.client_ip email c,
    )
  ]

  source_step :
      (s : Codes) (g : Guess) (ip : Bytes)
      → one (compared s g && g.client_ip == ip) + left_source ip (guess s g).0 ≤ left_source ip s
  unfolding guess compared left_source consume_code compare_code
  source_step s g ip = elim (Option-cases (lookup email s.codes)) [
    | inl e ↦ ground arith
    | inr (c, e) ↦ ground (
      arith,
      beq_refl email,
      beq_refl c.code_hash,
      bytes_beq_iff g.client_ip ip,
      lookup-clear_code s email email,
      lookup-clear_code (count_guess s email g.client_ip c) email email,
      lookup-counted s email g.client_ip email c,
      attempts-counted s email g.client_ip email ip c,
    )
  ]

  total_bound :
      (s : Codes) (gs : List Guess) → 0 < max_total → compared_count (λ _. true) s gs ≤ left_total s
  unfolding compared_count
  total_bound s [] pos = omega arith
  total_bound s (g ∷ gs) pos = ground (arith, total_step s g pos, total_bound (guess s g).0 gs pos)

  source_bound :
      (s : Codes) (gs : List Guess) (ip : Bytes)
      → compared_count (λ j. j == ip) s gs ≤ left_source ip s
  unfolding compared_count
  source_bound s [] ip = omega arith
  source_bound s (g ∷ gs) ip = ground (arith, source_step s g ip, source_bound (guess s g).0 gs ip)

  -- Over any history of guesses at one stored code, from whatever sources and at whatever times, at
  -- most as many as the code's remaining total, and from any one source at most as many as its remaining
  -- budget, are made when the right code would have been accepted.
  pub compared_bound :
      (s : Codes) (gs : List Guess) (ip : Bytes) (c : Code)
      → 0 < max_total
      → lookup email s.codes ≡ some c
      → (compared_count (λ _. true) s gs ≤ max_total - c.attempts)
        × (compared_count (λ j. j == ip) s gs ≤ max_attempts - attempts_of s email ip)
  unfolding left_total left_source
  compared_bound s gs ip c pos e = ground (arith, total_bound s gs pos, source_bound s gs ip)
