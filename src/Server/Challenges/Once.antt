-- ===== src/Server/Challenges/Once.antt =====
-- How often a challenge is taken.
use vps_scaffold_auth.Common.{
  ℕ, ◌+◌, ◌≤◌, ◌≡◌, inl, inr, true, false, not, some, List, [], ◌∷◌, arith, ltb, leb, Bool-cases,
  Option-cases, Bytes, bytes_beq_iff, nat_eq, bytes_eq, pair_eq, beq_refl, all,
}
use vps_scaffold_auth.Common.Table.{
  Table, lookup, lookup-insert, IsKeyed, lookup-filter_values, filter_values-IsKeyed,
  insert-IsKeyed,
}
use vps_scaffold_auth.Store.Sessions.{use_challenge, prune_challenges}
use vps_scaffold_auth.Server.Challenges.{
  challenge_guard_max, passkey_challenge_ttl, second_of, ChallengeGuard, sweep, take_challenge,
  use_once,
}

-- The guard holds the key up to a second.
abbrev Holds : ChallengeGuard → Bytes → ℕ → Type 0
Holds g k until = (lookup k g.used ≡ some until) × IsKeyed g.used

sweep-Holds :
    (g : ChallengeGuard) (k : Bytes) (until now : ℕ)
    → second_of now ≤ until
    → Holds g k until
    → Holds (sweep g now) k until
unfolding sweep prune_challenges
sweep-Holds g k until now h (e, keyed) = elim (Bool-cases (ltb g.next_sweep now)) [
  | inl q ↦
      rw (q, sweep)
        (
          rw (lookup-filter_values (λ u. not (ltb u (second_of now))) k g.used keyed)
              (rw e (ground arith)),
          filter_values-IsKeyed (λ u. not (ltb u (second_of now))) g.used keyed,
        )
  | inr q ↦ rw (q, sweep) (e, keyed)
]

sweep-IsKeyed : (g : ChallengeGuard) (now : ℕ) → IsKeyed g.used → IsKeyed (sweep g now).used
unfolding sweep prune_challenges
sweep-IsKeyed g now keyed = elim (Bool-cases (ltb g.next_sweep now)) [
  | inl q ↦ rw (q, sweep) (filter_values-IsKeyed (λ u. not (ltb u (second_of now))) g.used keyed)
  | inr q ↦ rw (q, sweep) keyed
]

use_challenge-IsKeyed :
    (t : Table Bytes ℕ) (key : Bytes) (until now : ℕ)
    → IsKeyed t
    → IsKeyed (use_challenge t key until now).0
unfolding use_challenge
use_challenge-IsKeyed t key until now keyed = elim (Option-cases (lookup key t)) [
  | inl e ↦ rw (e, use_challenge) (insert-IsKeyed key until t keyed)
  | inr (old, e) ↦ elim (Bool-cases (ltb old now)) [
    | inl b ↦ rw (e, b, use_challenge) (insert-IsKeyed key until t keyed)
    | inr b ↦ rw (e, b, use_challenge) keyed
  ]
]

take-IsKeyed :
    (g : ChallengeGuard) (key : Bytes) (now : ℕ)
    → IsKeyed g.used
    → IsKeyed (take_challenge g key now).0.used
unfolding take_challenge
take-IsKeyed g key now keyed = elim (Bool-cases (leb challenge_guard_max g.count)) [
  | inl q ↦ rw (q, take_challenge) keyed
  | inr q ↦ rw (q, take_challenge) (use_challenge-IsKeyed g.used key _ _ keyed)
]

take-keeps :
    (g : ChallengeGuard) (k key : Bytes) (until now : ℕ)
    → second_of now ≤ until
    → lookup k g.used ≡ some until
    → lookup k (take_challenge g key now).0.used ≡ some until
unfolding take_challenge use_challenge
take-keeps g k key until now h e = elim (Option-cases (lookup key g.used)) [
  | inl f ↦ ground (
    arith,
    lookup-insert key k (second_of (now + passkey_challenge_ttl)) g.used,
    bytes_beq_iff key k,
  )
  | inr (old, f) ↦ ground (
    arith,
    lookup-insert key k (second_of (now + passkey_challenge_ttl)) g.used,
    bytes_beq_iff key k,
  )
]

take-held :
    (g : ChallengeGuard) (k : Bytes) (until now : ℕ)
    → second_of now ≤ until
    → lookup k g.used ≡ some until
    → (take_challenge g k now).1 ≡ false
unfolding take_challenge use_challenge
take-held g k until now h e = ground arith

take-recorded :
    (g : ChallengeGuard) (k : Bytes) (now : ℕ)
    → (take_challenge g k now).1 ≡ true
    → lookup k (take_challenge g k now).0.used ≡ some (second_of (now + passkey_challenge_ttl))
unfolding take_challenge use_challenge
take-recorded g k now ok = elim (Option-cases (lookup k g.used)) [
  | inl f ↦
      ground (arith, lookup-insert k k (second_of (now + passkey_challenge_ttl)) g.used, beq_refl k)
  | inr (old, f) ↦
      ground (arith, lookup-insert k k (second_of (now + passkey_challenge_ttl)) g.used, beq_refl k)
]

pub record Presented : Type 0 where
  pub challenge : Bytes
  pub at : ℕ

module _ (hash : Bytes → Bytes) where
  unfoldable pub present_each : ChallengeGuard → List Presented → ChallengeGuard
  present_each g [] = g
  present_each g (p ∷ ps) = present_each (use_once hash g p.challenge p.at).0 ps

  use_once-Holds :
      (g : ChallengeGuard) (p : Presented) (k : Bytes) (until : ℕ)
      → second_of p.at ≤ until
      → Holds g k until
      → Holds (use_once hash g p.challenge p.at).0 k until
  unfolding use_once
  use_once-Holds g p k until h holds =
      let (e, keyed) = sweep-Holds g k until p.at h holds in
      (
        take-keeps (sweep g p.at) k (hash p.challenge) until p.at h e,
        take-IsKeyed (sweep g p.at) (hash p.challenge) p.at keyed,
      )

  present_each-Holds :
      (g : ChallengeGuard) (ps : List Presented) (k : Bytes) (until : ℕ)
      → all (λ p. leb (second_of p.at) until) ps ≡ true
      → Holds g k until
      → Holds (present_each g ps) k until
  unfolding present_each
  present_each-Holds g [] k until h holds = holds
  present_each-Holds g (p ∷ ps) k until h holds =
      present_each-Holds (use_once hash g p.challenge p.at).0 ps k until (ground arith)
        (use_once-Holds g p k until (ground arith) holds)

  -- In a table with one row a key, once a challenge is taken, and whatever challenges are presented in the meantime, it is refused
  -- up to the second in which it expires, sweeps of the table included.
  pub challenge_once :
      (g : ChallengeGuard) (challenge : Bytes) (now later : ℕ) (ps : List Presented)
      → IsKeyed g.used
      → (use_once hash g challenge now).1 ≡ true
      → all (λ p. leb (second_of p.at) (second_of (now + passkey_challenge_ttl))) ps ≡ true
      → second_of later ≤ second_of (now + passkey_challenge_ttl)
      → (use_once hash (present_each (use_once hash g challenge now).0 ps) challenge later).1
        ≡ false
  unfolding use_once
  challenge_once g challenge now later ps keyed ok h soon =
      let after = present_each (use_once hash g challenge now).0 ps in
      let until : ℕ = second_of (now + passkey_challenge_ttl) in
      let first : Holds (use_once hash g challenge now).0 (hash challenge) until = (
        take-recorded (sweep g now) (hash challenge) now ok,
        take-IsKeyed (sweep g now) (hash challenge) now (sweep-IsKeyed g now keyed),
      ) in
      let held =
        sweep-Holds after (hash challenge) until later soon (
          present_each-Holds (use_once hash g challenge now).0 ps (hash challenge) until h first) in
      take-held (sweep after later) (hash challenge) until later soon held.0
