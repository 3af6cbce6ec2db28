-- ===== src/Server/Alerts/Once.antt =====
-- How often an address is alerted about.
use vps_scaffold_auth.Common.{
  ℕ, ◌+◌, ◌-◌, ◌<◌, ◌≡◌, refl, ◌≢◌, ◌⊎◌, inl, inr, true, false, not, ◌||◌, some, List, [], ◌∷◌,
  arith, ltb, leb, Bool-cases, ◌==◌, Bytes, bytes_beq_iff, nat_eq, bytes_eq, pair_eq, beq_refl,
  is_nil, all,
}
use vps_scaffold_auth.Common.Table.{
  lookup, lookup-insert, filter_values, IsKeyed, lookup-filter_values, filter_values-IsKeyed,
  insert-IsKeyed,
}
use vps_scaffold_auth.Authz.Roles.{Policy, role, role_deny}
use vps_scaffold_auth.Server.Alerts.{
  CodeAlert, day, DailyOnce, within_day, due, allow_event, max_code_alerts_per_day, Alerts,
  overflow_key, alert_about_codes,
}

due-IsKeyed :
    (last : DailyOnce) (key : Bytes) (now : ℕ) → IsKeyed last → IsKeyed (due last key now).0
unfolding due
due-IsKeyed last key now keyed = elim (Bool-cases (within_day (lookup key last) now)) [
  | inl q ↦ rw (q, due) keyed
  | inr q ↦
      rw (q, due)
        (insert-IsKeyed key now (filter_values (λ t. not (leb day (now - t))) last)
          (filter_values-IsKeyed (λ t. not (leb day (now - t))) last keyed))
]

-- An entry less than a day old outlasts another question.
due-keeps :
    (last : DailyOnce) (k key : Bytes) (t now : ℕ)
    → IsKeyed last
    → lookup k last ≡ some t
    → now < t + day
    → lookup k (due last key now).0 ≡ some t
unfolding due
due-keeps last k key t now keyed e h = ground (
  arith,
  lookup-filter_values (λ x. not (leb day (now - x))) k last keyed,
  lookup-insert key k now (filter_values (λ x. not (leb day (now - x))) last),
  bytes_beq_iff key k,
)

due-recorded :
    (last : DailyOnce) (key : Bytes) (now : ℕ)
    → (due last key now).1 ≡ true
    → lookup key (due last key now).0 ≡ some now
unfolding due
due-recorded last key now h = elim (Bool-cases (within_day (lookup key last) now)) [
  | inl q ↦ absurd (ground arith)
  | inr q ↦
      rw (q, due)
        (rw (lookup-insert key key now (filter_values (λ t. not (leb day (now - t))) last))
          (rw (beq_refl key)))
]

abbrev Holds : DailyOnce → Bytes → ℕ → Type 0
Holds last k t = (lookup k last ≡ some t) × IsKeyed last

due-Holds :
    (last : DailyOnce) (k key : Bytes) (t now : ℕ)
    → now < t + day
    → Holds last k t
    → Holds (due last key now).0 k t
due-Holds last k key t now h (e, keyed) =
    (due-keeps last k key t now keyed e h, due-IsKeyed last key now keyed)

-- one call of `alertAboutCodes`
pub record Asked : Type 0 where
  pub addr : Bytes
  pub kind : CodeAlert
  pub at : ℕ

module _ (p : Policy) (admins : List Bytes) where
  unfoldable pub alert_each : Alerts → List Asked → Alerts
  alert_each s [] = s
  alert_each s (a ∷ rest) = alert_each (alert_about_codes p admins s a.addr a.kind a.at).0 rest

  -- What a call makes of the address book: nothing, one question or two.
  call-book :
      (s : Alerts) (addr : Bytes) (kind : CodeAlert) (now : ℕ)
      → let after = (alert_about_codes p admins s addr kind now).0.code_alerts in
        let asked = (due s.code_alerts addr now).0 in
        (after ≡ s.code_alerts) ⊎ ((after ≡ asked) ⊎ (after ≡ (due asked overflow_key now).0))
  unfolding alert_about_codes
  call-book s addr kind now = elim (Bool-cases ((role p addr == role_deny) || is_nil admins)) [
    | inl q ↦ inl (rw (q, alert_about_codes) refl)
    | inr q ↦ elim (Bool-cases (due s.code_alerts addr now).1) [
      | inr f ↦ inr (inl (rw (q, f, alert_about_codes) refl))
      | inl f ↦ elim (Bool-cases (allow_event s.alerts_per_day max_code_alerts_per_day now).1) [
        | inl n ↦ inr (inl (rw (q, f, n, alert_about_codes) refl))
        | inr n ↦ inr (inr (rw (q, f, n, alert_about_codes) refl))
      ]
    ]
  ]

  call-Holds :
      (s : Alerts) (addr : Bytes) (kind : CodeAlert) (now : ℕ) (k : Bytes) (t : ℕ)
      → now < t + day
      → Holds s.code_alerts k t
      → Holds (alert_about_codes p admins s addr kind now).0.code_alerts k t
  call-Holds s addr kind now k t h holds =
      let asked = due-Holds s.code_alerts k addr t now h holds in
      elim (call-book s addr kind now) [
        | inl q ↦ rw q holds
        | inr (inl q) ↦ rw q asked
        | inr (inr q) ↦ rw q (due-Holds (due s.code_alerts addr now).0 k overflow_key t now h asked)
      ]

  each-Holds :
      (s : Alerts) (asks : List Asked) (k : Bytes) (t : ℕ)
      → all (λ a. ltb a.at (t + day)) asks ≡ true
      → Holds s.code_alerts k t
      → Holds (alert_each s asks).code_alerts k t
  unfolding alert_each
  each-Holds s [] k t h holds = holds
  each-Holds s (a ∷ asks) k t h holds =
      each-Holds (alert_about_codes p admins s a.addr a.kind a.at).0 asks k t (ground arith)
        (call-Holds s a.addr a.kind a.at k t (ground arith) holds)

  silent :
      (s : Alerts) (addr : Bytes) (kind : CodeAlert) (now : ℕ)
      → (due s.code_alerts addr now).1 ≡ false
      → (alert_about_codes p admins s addr kind now).1 ≡ []
  unfolding alert_about_codes
  silent s addr kind now f = elim (Bool-cases ((role p addr == role_deny) || is_nil admins)) [
    | inl q ↦ rw (q, alert_about_codes) refl
    | inr q ↦ rw (q, f, alert_about_codes) refl
  ]

  not_due :
      (last : DailyOnce) (key : Bytes) (t now : ℕ)
      → lookup key last ≡ some t
      → now < t + day
      → (due last key now).1 ≡ false
  unfolding due
  not_due last key t now e h = ground arith

  recorded :
      (s : Alerts) (addr : Bytes) (now : ℕ)
      → IsKeyed s.code_alerts
      → (due s.code_alerts addr now).1 ≡ true
      → Holds (due s.code_alerts addr now).0 addr now
  recorded s addr now keyed f =
      (due-recorded s.code_alerts addr now f, due-IsKeyed s.code_alerts addr now keyed)

  first-Holds :
      (s : Alerts) (addr : Bytes) (kind : CodeAlert) (now : ℕ)
      → IsKeyed s.code_alerts
      → (alert_about_codes p admins s addr kind now).1 ≢ []
      → Holds (alert_about_codes p admins s addr kind now).0.code_alerts addr now
  unfolding alert_about_codes
  first-Holds s addr kind now keyed sent = elim (Bool-cases (due s.code_alerts addr now).1) [
    | inr f ↦ absurd (sent (silent s addr kind now f))
    | inl f ↦ elim (Bool-cases ((role p addr == role_deny) || is_nil admins)) [
      | inl q ↦ absurd (sent (rw (q, alert_about_codes) refl))
      | inr q ↦ elim (Bool-cases (allow_event s.alerts_per_day max_code_alerts_per_day now).1) [
        | inl n ↦ rw (q, f, n, alert_about_codes) (recorded s addr now keyed f)
        | inr n ↦
            rw (q, f, n, alert_about_codes)
              (due-Holds (due s.code_alerts addr now).0 addr overflow_key now now (omega arith)
                (recorded s addr now keyed f))
      ]
    ]
  ]

  -- In a table with one row a key, once a call for an address has sent anything, and whatever calls for other addresses or for it
  -- follow, a call for it sends nothing until a day has passed.
  pub alerted_once_a_day :
      (s : Alerts) (addr : Bytes) (kind kind' : CodeAlert) (now later : ℕ) (asks : List Asked)
      → IsKeyed s.code_alerts
      → (alert_about_codes p admins s addr kind now).1 ≢ []
      → all (λ a. ltb a.at (now + day)) asks ≡ true
      → later < now + day
      → (alert_about_codes p admins
          (alert_each (alert_about_codes p admins s addr kind now).0 asks)
          addr
          kind'
          later).1
        ≡ []
  alerted_once_a_day s addr kind kind' now later asks keyed sent h soon =
      let after = alert_each (alert_about_codes p admins s addr kind now).0 asks in
      let (e, k) =
        each-Holds (alert_about_codes p admins s addr kind now).0 asks addr now h
          (first-Holds s addr kind now keyed sent) in
      silent after addr kind' later (not_due after.code_alerts addr now later e soon)
