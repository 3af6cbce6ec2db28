-- ===== src/Tests/Guesses.antt =====
-- Administrators' codes and the alerts about codes, on concrete states.
use vps_scaffold_auth.Common.{
  ℕ, ◌≡◌, refl, ◌≢◌, Bool, false, Option, none, some, [], ◌∷◌, arith, ◌==◌, Bytes, bytes_beq,
  nat_eq, bytes_eq, pair_eq,
}
use vps_scaffold_auth.Common.Text.{codes, to_lower, trim_space}
use vps_scaffold_auth.Common.Table.{lookup, filter_values}
use vps_scaffold_auth.Store.Sessions.{use_challenge}
use vps_scaffold_auth.Store.Sessions.{prune_challenges}
use vps_scaffold_auth.Authz.Roles.{domain_part, role, Policy, new_policy}
use vps_scaffold_auth.Server.Replay.{prune_seen, use_code}
use vps_scaffold_auth.Server.AdminCode.{
  accept_code, check_reserved, CodeState, Attempt, accepted, valid_code, check_admin_code,
  locked_account_blind,
}
use vps_scaffold_auth.Server.AdminCode.Once.{check_each, accepted_once}
use vps_scaffold_auth.Server.Alerts.{
  started, allow_event, due, daily, burned, code_alert, DailyCount, Alerts, alert_about_codes,
}
use vps_scaffold_auth.Server.Alerts.Once.{alert_each, alerted_once_a_day}
use vps_scaffold_auth.Server.Challenges.{sweep, take_challenge, ChallengeGuard, use_once}
use vps_scaffold_auth.Server.Challenges.Once.{present_each, challenge_once}
use vps_scaffold_auth.Ratelimit.{refill, new, allow}
use vps_scaffold_auth.Store.Totp.{next_failures, reserve_totp_attempt, totp_failure_count}

abbrev boss : Bytes
boss = codes "boss@x.org"

abbrev home : Bytes
home = codes "10.0.0.1"

-- the code that is the secret is the valid one
abbrev pub same_code : Bytes → Bytes → ℕ → Bool
same_code code secret now = code == secret

abbrev pub one_secret : Bytes → Option Bytes
one_secret email = some (codes "s1")

abbrev pub ready : CodeState
ready = record { wrong_codes = new 5 60000000000; failures = []; replay = []; audit = [] }

abbrev attempt : Attempt
attempt = record { ip = home; email = boss; code = codes "s1"; at = 5 }

abbrev locked : CodeState
locked = record ready { failures = (boss, record { fail_count = 5; window_start = 0 }) ∷ [] }

locked_account_blind_example :
    ((check_admin_code same_code one_secret 5 locked attempt).1 ≢ accepted)
    × (check_admin_code same_code one_secret 5 locked (record attempt { code = codes "s2" })
        ≡ check_admin_code same_code one_secret 5 locked attempt)
unfolding totp_failure_count lookup bytes_beq
locked_account_blind_example =
    locked_account_blind same_code one_secret 5 locked attempt (codes "s2") (omega arith)

accepted_once_example :
    (check_admin_code same_code one_secret 5
      (check_each same_code one_secret 5
        (check_admin_code same_code one_secret 5 ready attempt).0
        (record attempt { at = 6 } ∷ []))
      (record { ip = codes "10.0.0.2"; email = boss; code = codes "s1"; at = 7 })).1
    ≢ accepted
unfolding check_admin_code allow new refill lookup check_reserved reserve_totp_attempt next_failures
    valid_code bytes_beq use_code prune_seen filter_values accept_code
accepted_once_example =
    accepted_once same_code one_secret 5 ready attempt (record attempt { at = 6 } ∷ [])
      (codes "10.0.0.2") 7 tt refl refl (omega arith)

abbrev unstarted : DailyCount
unstarted = record { start = none; n = 0 }

abbrev policy : Policy
policy = new_policy (codes "x.org" ∷ []) (boss ∷ [])

abbrev ann : Bytes
ann = codes "ann@x.org"

abbrev calm : Alerts
calm = record { code_alerts = []; alerts_per_day = unstarted }

first_alert :
    (alert_about_codes policy (boss ∷ []) calm ann daily 5).1 ≡ code_alert boss ann daily ∷ []
unfolding alert_about_codes bytes_beq role to_lower trim_space new_policy domain_part due lookup
    allow_event started
first_alert = refl

sent : (alert_about_codes policy (boss ∷ []) calm ann daily 5).1 ≢ []
sent h = absurd (ground (arith, first_alert))

alerted_once_a_day_example :
    (alert_about_codes policy
      (boss ∷ [])
      (alert_each policy
        (boss ∷ [])
        (alert_about_codes policy (boss ∷ []) calm ann daily 5).0
        (record { addr = ann; kind = daily; at = 6 } ∷ []))
      ann
      burned
      7).1
    ≡ []
alerted_once_a_day_example =
    alerted_once_a_day policy (boss ∷ []) calm ann daily burned 5 7
      (record { addr = ann; kind = daily; at = 6 } ∷ []) tt sent refl (omega arith)

abbrev unused : ChallengeGuard
unused = record { used = []; next_sweep = 0; count = 0 }

abbrev same : Bytes → Bytes
same s = s

challenge_once_example :
    (use_once same
      (present_each same (use_once same unused boss 5).0 (record { challenge = boss; at = 6 } ∷ []))
      boss
      7).1
    ≡ false
unfolding use_once take_challenge sweep prune_challenges filter_values use_challenge lookup
challenge_once_example =
    challenge_once same unused boss 5 7 (record { challenge = boss; at = 6 } ∷ []) tt refl refl
      (omega arith)
