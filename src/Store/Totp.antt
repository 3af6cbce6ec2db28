-- ===== src/Store/Totp.antt =====
-- internal/store/sqlite.go: the table `totp_failures` and its methods. Times are Unix seconds: the
-- window is a whole number of them, so the comparison that the code makes on nanoseconds agrees.
use vps_scaffold_auth.Common.{
  ℕ, ◌+◌, ◌-◌, ◌<◌, ◌≡◌, ◌≢◌, inl, inr, none, some, arith, leb, if◌then◌else◌, Option-cases, Bytes,
  bytes_beq_iff, nat_eq, bytes_eq, pair_eq, beq_refl,
}
use vps_scaffold_auth.Common.Table.{Table, lookup, delete, insert, lookup-insert}

pub record Failures : Type 0 where
  pub fail_count : ℕ
  pub window_start : ℕ

abbrev pub TotpFailures : Type 0
TotpFailures = Table Bytes Failures

unfoldable pub totp_failure_count : TotpFailures → Bytes → ℕ → ℕ → ℕ
totp_failure_count t email window now = elim (lookup email t) [
  | none ↦ 0
  | some f ↦ if leb window (now - f.window_start) then 0 else f.fail_count
]

-- the count and window start that an attempt writes
unfoldable pub next_failures : TotpFailures → Bytes → ℕ → ℕ → Failures
next_failures t email window now = elim (lookup email t) [
  | none ↦ record { fail_count = 1; window_start = now }
  | some f ↦
      if leb window (now - f.window_start)
      then record { fail_count = 1; window_start = now }
      else record f { fail_count = f.fail_count + 1 }
]

unfoldable pub record_totp_failure : TotpFailures → Bytes → ℕ → ℕ → TotpFailures × ℕ
record_totp_failure t email window now =
    let f = next_failures t email window now in (insert email f t, f.fail_count)

unfoldable pub reserve_totp_attempt : TotpFailures → Bytes → ℕ → ℕ → TotpFailures × ℕ
reserve_totp_attempt t email window now =
    let f = next_failures t email window now in (insert email f t, f.fail_count)

unfoldable pub clear_totp_failures : TotpFailures → Bytes → TotpFailures
clear_totp_failures t email = delete email t

-- A reservation is counted at once: the account's count right after it is the number that the
-- reservation returned, one more than before; and no other account's count changes, then or later.
pub reserve-count :
    (t : TotpFailures) (email other : Bytes) (window now later : ℕ)
    → 0 < window
    → email ≢ other
    → let r = reserve_totp_attempt t email window now in
      (r.1 ≡ totp_failure_count t email window now + 1)
      × (totp_failure_count r.0 email window now ≡ r.1)
      × (totp_failure_count r.0 other window later ≡ totp_failure_count t other window later)
unfolding reserve_totp_attempt totp_failure_count next_failures
reserve-count t email other window now later pos apart =
    let f = next_failures t email window now in
    elim (Option-cases (lookup email t)) [
      | inl e ↦ (
        ground arith,
        ground (arith, lookup-insert email email f t, beq_refl email),
        ground (arith, lookup-insert email other f t, bytes_beq_iff email other, apart),
      )
      | inr (c, e) ↦ (
        ground arith,
        ground (arith, lookup-insert email email f t, beq_refl email),
        ground (arith, lookup-insert email other f t, bytes_beq_iff email other, apart),
      )
    ]
