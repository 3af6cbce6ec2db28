-- ===== src/Server/Alerts/Daily.antt =====
-- How many alerts a day allows.
use vps_scaffold_auth.Common.{
  ℕ, suc, ◌+◌, ◌-◌, ◌≤◌, ◌<◌, ◌≡◌, inl, inr, Bool, true, ◌&&◌, List, [], ◌∷◌, arith, leb,
  if◌then◌else◌, Option-cases, nat_eq, bytes_eq, pair_eq, all,
}
use vps_scaffold_auth.Server.Alerts.{DailyCount, day, within_day, started, allow_event}

-- The times at which events ask, and the number of them allowed.
unfoldable pub allowed_count : DailyCount → ℕ → List ℕ → ℕ
allowed_count d limit [] = 0
allowed_count d limit (t ∷ ts) =
    let rest = allowed_count (allow_event d limit t).0 limit ts in
    if (allow_event d limit t).1 then suc rest else rest

-- what may still be allowed up to `end`
abbrev room : DailyCount → ℕ → ℕ → ℕ
room d limit end = (limit - d.n) + (if within_day d.start end then 0 else limit)

abbrev one : Bool → ℕ
one b = if b then 1 else 0

room_step :
    (d : DailyCount) (limit from t last : ℕ)
    → from ≤ t
    → t ≤ last
    → last < from + day
    → one (allow_event d limit t).1 + room (allow_event d limit t).0 limit last ≤ room d limit last
unfolding allow_event started
room_step d limit from t last h k m = elim (Option-cases d.start) [
  | inl e ↦ ground arith
  | inr (s, e) ↦ ground arith
]

count_room :
    (d : DailyCount) (limit from last : ℕ) (ts : List ℕ)
    → all (λ t. leb from t && leb t last) ts ≡ true
    → last < from + day
    → allowed_count d limit ts ≤ room d limit last
unfolding allowed_count
count_room d limit from last [] h m = omega arith
count_room d limit from last (t ∷ ts) h m = ground (
  arith,
  room_step d limit from t last (ground arith) (ground arith) m,
  count_room (allow_event d limit t).0 limit from last ts (ground arith) m,
)

-- Whatever events ask, in any stretch of time no longer than a day, at most what is left of the
-- limit is allowed, and the limit once more if the count's own day does not cover the stretch.
pub daily_count_bound :
    (d : DailyCount) (limit from last : ℕ) (ts : List ℕ)
    → all (λ t. leb from t && leb t last) ts ≡ true
    → last < from + day
    → allowed_count d limit ts ≤ (limit - d.n) + (if within_day d.start last then 0 else limit)
daily_count_bound d limit from last ts h m = count_room d limit from last ts h m
