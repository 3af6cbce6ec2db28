-- ===== src/Server/AdminCode/Once.antt =====
-- How often an authenticator code is accepted.
use vps_scaffold_auth.Common.{
  ℕ, ◌+◌, ◌≤◌, ◌≡◌, ◌≢◌, ◌⊎◌, inl, inr, Bool, true, Option, some, List, [], ◌∷◌, arith, ltb, leb,
  Bool-cases, Bytes, nat_eq, bytes_eq, pair_eq, all,
}
use vps_scaffold_auth.Common.Table.{lookup, IsKeyed}
use vps_scaffold_auth.Ratelimit.{allow}
use vps_scaffold_auth.Server.Replay.{
  Seen, totp_replay_window, replay_key, use_code, use_code-IsKeyed, use_code-keeps,
  use_code-recorded, use_code_iff,
}
use vps_scaffold_auth.Server.AdminCode.{
  CodeState, Attempt, accepted, accepted_iff, accept_code, check_reserved, check_admin_code,
  valid_code,
}

module _ (validate : Bytes → Bytes → ℕ → Bool) (secret_of : Bytes → Option Bytes)
    (max_attempts : ℕ) where
  unfoldable pub check_each : CodeState → List Attempt → CodeState
  check_each s [] = s
  check_each s (a ∷ tries) =
      check_each (check_admin_code validate secret_of max_attempts s a).0 tries

  reserved-replay :
      (s : CodeState) (a : Attempt) (n : ℕ)
      → let s' = (check_reserved validate secret_of max_attempts s a n).0 in
        (s'.replay ≡ s.replay) ⊎ (s'.replay ≡ (use_code s.replay a.email a.code a.at).0)
  unfolding check_reserved accept_code
  reserved-replay s a n = elim (Bool-cases (ltb max_attempts n)) [
    | inl q ↦ inl (ground arith)
    | inr q ↦ elim (Bool-cases (valid_code validate secret_of max_attempts a)) [
      | inl v ↦ inr (ground arith)
      | inr v ↦ inl (ground arith)
    ]
  ]

  -- A check leaves the replay guard as it was, or gives it the code.
  check-replay :
      (s : CodeState) (a : Attempt)
      → let s' = (check_admin_code validate secret_of max_attempts s a).0 in
        (s'.replay ≡ s.replay) ⊎ (s'.replay ≡ (use_code s.replay a.email a.code a.at).0)
  unfolding check_admin_code
  check-replay s a = elim (Bool-cases (allow s.wrong_codes a.ip a.at).1) [
    | inl q ↦ rw (q, check_admin_code) (reserved-replay _ a _)
    | inr q ↦ inl (ground arith)
  ]

  -- The guard holds a use of the key at the time.
  abbrev Holds : Seen → Bytes → ℕ → Type 0
  Holds seen k t = (lookup k seen ≡ some t) × IsKeyed seen

  check-Holds :
      (s : CodeState) (a : Attempt) (k : Bytes) (t : ℕ)
      → a.at ≤ t + totp_replay_window
      → Holds s.replay k t
      → Holds (check_admin_code validate secret_of max_attempts s a).0.replay k t
  check-Holds s a k t h (e, keyed) = elim (check-replay s a) [
    | inl q ↦ rw q (e, keyed)
    | inr q ↦ rw q (
      use_code-keeps s.replay k a.email a.code t a.at keyed e h,
      use_code-IsKeyed s.replay a.email a.code a.at keyed,
    )
  ]

  check_each-Holds :
      (s : CodeState) (tries : List Attempt) (k : Bytes) (t : ℕ)
      → all (λ a. leb a.at (t + totp_replay_window)) tries ≡ true
      → Holds s.replay k t
      → Holds (check_each s tries).replay k t
  unfolding check_each
  check_each-Holds s [] k t h holds = holds
  check_each-Holds s (a ∷ tries) k t h holds =
      check_each-Holds (check_admin_code validate secret_of max_attempts s a).0 tries k t
        (ground arith) (check-Holds s a k t (ground arith) holds)

  accepted-replay :
      (s : CodeState) (a : Attempt)
      → (check_admin_code validate secret_of max_attempts s a).1 ≡ accepted
      → (check_admin_code validate secret_of max_attempts s a).0.replay
        ≡ (use_code s.replay a.email a.code a.at).0
  unfolding check_admin_code check_reserved accept_code
  accepted-replay s a ok = ground arith

  accepted-Holds :
      (s : CodeState) (a : Attempt)
      → IsKeyed s.replay
      → (check_admin_code validate secret_of max_attempts s a).1 ≡ accepted
      → Holds
          (check_admin_code validate secret_of max_attempts s a).0.replay
          (replay_key a.email a.code)
          a.at
  accepted-Holds s a keyed ok =
      let (allowed, count, valid, unused) =
        (accepted_iff validate secret_of max_attempts s a).0 ok in
      rw (accepted-replay s a ok) (
        use_code-recorded s.replay a.email a.code a.at unused,
        use_code-IsKeyed s.replay a.email a.code a.at keyed,
      )

  -- In a table with one row a key, once a code has been accepted for an account, and whatever attempts are made by anyone in the
  -- meantime, it is not accepted for the account again, from any network, until more than the replay
  -- window has passed.
  pub accepted_once :
      (s : CodeState) (a : Attempt) (tries : List Attempt) (ip : Bytes) (later : ℕ)
      → IsKeyed s.replay
      → (check_admin_code validate secret_of max_attempts s a).1 ≡ accepted
      → all (λ b. leb b.at (a.at + totp_replay_window)) tries ≡ true
      → later ≤ a.at + totp_replay_window
      → (check_admin_code validate secret_of max_attempts
          (check_each (check_admin_code validate secret_of max_attempts s a).0 tries)
          (record { ip = ip; email = a.email; code = a.code; at = later })).1
        ≢ accepted
  accepted_once s a tries ip later keyed ok h soon again =
      let after = check_each (check_admin_code validate secret_of max_attempts s a).0 tries in
      let (e, k) =
        check_each-Holds (check_admin_code validate secret_of max_attempts s a).0 tries
          (replay_key a.email a.code) a.at h (accepted-Holds s a keyed ok) in
      let (allowed, count, valid, unused) =
        (accepted_iff validate secret_of max_attempts after
            (record { ip = ip; email = a.email; code = a.code; at = later })).0
          again in
      omega (arith, (use_code_iff after.replay a.email a.code later k).0 unused a.at e)
