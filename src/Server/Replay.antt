-- ===== src/Server/Replay.antt =====
-- internal/server/totp_replay.go: authenticator codes already accepted. Times are nanoseconds, and
-- the readings that successive calls take do not go back.
use vps_scaffold_auth.Common.{
  ℕ, ◌+◌, ◌-◌, ◌≤◌, ◌<◌, ◌≡◌, ◌↔◌, inl, inr, Bool, true, false, not, Option, none, some, List, [],
  ◌∷◌, ◌++◌, arith, ltb, leb, if◌then◌else◌, Bool-cases, Option-cases, Bytes, bytes_beq_iff, nat_eq,
  bytes_eq, pair_eq, beq_refl, all,
}
use vps_scaffold_auth.Common.Table.{
  Table, lookup, insert, lookup-insert, filter_values, IsKeyed, lookup-filter_values,
  filter_values-IsKeyed, insert-IsKeyed,
}

abbrev pub totp_replay_window : ℕ
totp_replay_window = 90000000000

abbrev pub Seen : Type 0
Seen = Table Bytes ℕ

unfoldable pub replay_key : Bytes → Bytes → Bytes
replay_key email code = email ++ 0 ∷ code

unfoldable pub prune_seen : Seen → ℕ → Seen
prune_seen seen now = filter_values (λ t. not (ltb totp_replay_window (now - t))) seen

abbrev within : Option ℕ → ℕ → Bool
within none now = false
within (some t) now = leb (now - t) totp_replay_window

unfoldable pub use_code : Seen → Bytes → Bytes → ℕ → Seen × Bool
use_code seen email code now =
    let key = replay_key email code in
    let kept = prune_seen seen now in
    if within (lookup key kept) now then (kept, false) else (insert key now kept, true)

pub record Use : Type 0 where
  pub email : Bytes
  pub code : Bytes
  pub at : ℕ

unfoldable pub use_each : Seen → List Use → Seen
use_each seen [] = seen
use_each seen (u ∷ us) = use_each (use_code seen u.email u.code u.at).0 us

pub use_code-IsKeyed :
    (seen : Seen) (email code : Bytes) (now : ℕ)
    → IsKeyed seen
    → IsKeyed (use_code seen email code now).0
unfolding use_code prune_seen
use_code-IsKeyed seen email code now keyed =
    let kept = filter_values-IsKeyed (λ t. not (ltb totp_replay_window (now - t))) seen keyed in
    elim (Bool-cases (within (lookup (replay_key email code) (prune_seen seen now)) now)) [
      | inl q ↦ rw (q, use_code) kept
      | inr q ↦
          rw (q, use_code) (insert-IsKeyed (replay_key email code) now (prune_seen seen now) kept)
    ]

-- An entry no older than the window outlasts a use.
pub use_code-keeps :
    (seen : Seen) (k email code : Bytes) (t now : ℕ)
    → IsKeyed seen
    → lookup k seen ≡ some t
    → now ≤ t + totp_replay_window
    → lookup k (use_code seen email code now).0 ≡ some t
unfolding use_code prune_seen
use_code-keeps seen k email code t now keyed e h = ground (
  arith,
  lookup-filter_values (λ x. not (ltb totp_replay_window (now - x))) k seen keyed,
  lookup-filter_values (λ x. not (ltb totp_replay_window (now - x))) (replay_key email code) seen
      keyed,
  lookup-insert (replay_key email code) k now
      (filter_values (λ x. not (ltb totp_replay_window (now - x))) seen),
  bytes_beq_iff (replay_key email code) k,
)

use_each-keeps :
    (seen : Seen) (us : List Use) (k : Bytes) (t : ℕ)
    → IsKeyed seen
    → lookup k seen ≡ some t
    → all (λ u. leb u.at (t + totp_replay_window)) us ≡ true
    → (lookup k (use_each seen us) ≡ some t) × IsKeyed (use_each seen us)
unfolding use_each
use_each-keeps seen [] k t keyed e h = (e, keyed)
use_each-keeps seen (u ∷ us) k t keyed e h =
    use_each-keeps (use_code seen u.email u.code u.at).0 us k t
      (use_code-IsKeyed seen u.email u.code u.at keyed)
      (use_code-keeps seen k u.email u.code t u.at keyed e (ground arith)) (ground arith)

-- A code is accepted exactly when the same person's same code was not accepted within the window.
pub use_code_iff :
    (seen : Seen) (email code : Bytes) (now : ℕ)
    → IsKeyed seen
    → ((use_code seen email code now).1 ≡ true)
      ↔ ((t : ℕ) → lookup (replay_key email code) seen ≡ some t → totp_replay_window < now - t)
unfolding use_code prune_seen
use_code_iff seen email code now keyed =
    let kept =
      lookup-filter_values (λ x. not (ltb totp_replay_window (now - x))) (replay_key email code)
        seen keyed in
    elim (Option-cases (lookup (replay_key email code) seen)) [
      | inl e ↦ (λ h t q. ground arith, λ h. ground (arith, kept))
      | inr (t, e) ↦ (λ h u q. ground (arith, kept), λ h. ground (arith, kept, h t e))
    ]

pub use_code-recorded :
    (seen : Seen) (email code : Bytes) (now : ℕ)
    → (use_code seen email code now).1 ≡ true
    → lookup (replay_key email code) (use_code seen email code now).0 ≡ some now
unfolding use_code
use_code-recorded seen email code now ok =
    elim (Bool-cases (within (lookup (replay_key email code) (prune_seen seen now)) now)) [
      | inl q ↦ ground (arith, q, ok)
      | inr q ↦
          rw (q, use_code)
            (rw
              (lookup-insert (replay_key email code) (replay_key email code) now
                (prune_seen seen now))
              (ground (arith, beq_refl (replay_key email code))))
    ]

-- Once a code is accepted, and whatever other codes are tried in the meantime, the same person's
-- same code is refused until more than the window has passed.
pub no_replay :
    (seen : Seen) (us : List Use) (email code : Bytes) (now later : ℕ)
    → IsKeyed seen
    → (use_code seen email code now).1 ≡ true
    → all (λ u. leb u.at (now + totp_replay_window)) us ≡ true
    → later ≤ now + totp_replay_window
    → (use_code (use_each (use_code seen email code now).0 us) email code later).1 ≡ false
no_replay seen us email code now later keyed ok h soon =
    let (e, k) =
      use_each-keeps (use_code seen email code now).0 us (replay_key email code) now
        (use_code-IsKeyed seen email code now keyed) (use_code-recorded seen email code now ok) h in
    let after = use_each (use_code seen email code now).0 us in
    elim (Bool-cases (use_code after email code later).1) [
      | inl q ↦ absurd (omega (arith, (use_code_iff after email code later k).0 q now e))
      | inr q ↦ q
    ]
