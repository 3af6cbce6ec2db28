-- ===== src/Server/Sends.antt =====
-- internal/server/handlers.go: `allowSend`, and internal/store/sqlite.go: the rows of `auth_events`
-- that it reads. The limiters and the guards are given nanoseconds, the store the second.
use vps_scaffold_auth.Common.{
  ℕ, ◌-◌, ◌/◌, Bool, true, false, not, ◌&&◌, List, ◌∷◌, ◌++◌, leb, if◌then◌else◌, ◌==◌, Bytes,
  nat_eq, bytes_eq, pair_eq, any,
}
use vps_scaffold_auth.Common.Text.{codes}
use vps_scaffold_auth.Ratelimit.{Limiter, allow, refund}
use vps_scaffold_auth.Store.Codes.{Codes}

abbrev pub event_verify : Bytes
event_verify = codes "verify"

abbrev pub event_login : Bytes
event_login = codes "login"

abbrev pub outcome_ok : Bytes
outcome_ok = codes "ok"

abbrev pub outcome_wrong_code : Bytes
outcome_wrong_code = codes "wrong_code"

abbrev pub outcome_expired : Bytes
outcome_expired = codes "expired"

abbrev pub outcome_locked_out : Bytes
outcome_locked_out = codes "locked_out"

abbrev pub outcome_denied : Bytes
outcome_denied = codes "denied"

-- a row of `auth_events`, less the user agent
pub record AuthEvent : Type 0 where
  pub email : Bytes
  pub event_type : Bytes
  pub outcome : Bytes
  pub client_ip : Bytes
  pub created_at : ℕ

-- What the sign-in handlers keep and later replies are read from.
pub record Ledger : Type 0 where
  pub codes : Codes
  pub ip_limiter : Limiter
  pub email_limiter : Limiter
  pub sends_per_ip : Limiter
  pub email_ceiling : Limiter
  pub email_daily : Limiter
  pub wrong_codes : Limiter
  pub auth_events : List AuthEvent

abbrev pub second_of : ℕ → ℕ
second_of now = now / 1000000000

-- in seconds
abbrev pub known_device_window : ℕ
known_device_window = 2592000

unfoldable pub has_recent_login : List AuthEvent → Bytes → Bytes → ℕ → Bool
has_recent_login events email client_ip since =
    any
      (λ e.
        (e.event_type == event_login && e.outcome == outcome_ok)
        && ((e.email == email && e.client_ip == client_ip) && leb since e.created_at))
      events

abbrev pub known_device : Ledger → Bytes → Bytes → ℕ → Bool
known_device s email ip now =
    has_recent_login s.auth_events email ip (second_of now - known_device_window)

-- `may_send` is what `allowSend` returns; `daily_spent` is whether it alerts the administrators.
pub record SendDecision : Type 0 where
  pub ledger : Ledger
  pub may_send : Bool
  pub daily_spent : Bool

abbrev pub unless_known : Ledger → Bytes → Bytes → ℕ → Bool → SendDecision
unless_known s email ip now spent = record {
  ledger = s;
  may_send = known_device s email ip now;
  daily_spent = spent;
}

-- from the address's daily limiter on
unfoldable pub charge_daily : Ledger → Bytes → Bytes → ℕ → SendDecision
charge_daily s email ip now =
    let (daily, ok) = allow s.email_daily email now in
    if ok
    then record { ledger = record s { email_daily = daily }; may_send = true; daily_spent = false }
    else unless_known
        (record s {
          email_daily = daily;
          email_ceiling = refund s.email_ceiling email now;
          sends_per_ip = refund s.sends_per_ip ip now;
        })
        email ip now true

-- from the address's ceiling on
unfoldable pub charge_ceiling : Ledger → Bytes → Bytes → ℕ → SendDecision
charge_ceiling s email ip now =
    let (ceiling, ok) = allow s.email_ceiling email now in
    if ok
    then charge_daily (record s { email_ceiling = ceiling }) email ip now
    else unless_known
        (record s { email_ceiling = ceiling; sends_per_ip = refund s.sends_per_ip ip now }) email ip
        now false

unfoldable pub allow_send : Ledger → Bytes → Bytes → ℕ → SendDecision
allow_send s email ip now =
    let (per_email, ok) = allow s.email_limiter (email ++ b'|' ∷ ip) now in
    if not ok
    then record {
      ledger = record s { email_limiter = per_email };
      may_send = false;
      daily_spent = false;
    }
    else (let (per_ip, may) = allow s.sends_per_ip ip now in
        let t = record s { email_limiter = per_email; sends_per_ip = per_ip } in
        if may then charge_ceiling t email ip now else unless_known t email ip now false)
