-- ===== src/Ratelimit/Rate.antt =====
-- The promise of the limiter over a history of calls, and the one case in which it forgets a charge.
use vps_scaffold_auth.Common.{
  ℕ, suc, ◌+◌, ◌-◌, ◌*◌, ◌≤◌, ◌<◌, ◌≡◌, inl, inr, Bool, true, ◌&&◌, none, List, [], ◌∷◌, arith, ltb,
  if◌then◌else◌, Bool-cases, ◌==◌, Bytes, bytes_beq_iff, nat_eq, bytes_eq, pair_eq, beq_refl,
  length,
}
use vps_scaffold_auth.Common.Table.{
  lookup, insert, lookup-insert, length-insert-le, IsKeyed, lookup-filter_values, insert-IsKeyed,
  length-insert_absent,
}
use vps_scaffold_auth.Ratelimit.Gc.{put}
use vps_scaffold_auth.Ratelimit.{
  topped_up, Bucket, Limiter, full, capped, gc_due, gc_threshold, gc_interval, since, gc, refill,
  write, allow,
}
use vps_scaffold_auth.Ratelimit.Level.{level, level_later, elapsed_split, IsValid, Survives}
use vps_scaffold_auth.Ratelimit.Charge.{no_time, allow-Charged, spent}

-- How many calls for `k` are allowed, in a history of keys with their times.
pub grants : Bytes → Limiter → List (Bytes × ℕ) → ℕ
grants k l [] = 0
grants k l ((j, t) ∷ calls) =
    let rest = grants k (allow l j t).0 calls in
    if j == k && (allow l j t).1 then suc rest else rest

-- The times of the history rise from `from` to `until`.
abbrev pub Rises : ℕ → List (Bytes × ℕ) → ℕ → Type 0
Rises from [] until = from ≤ until
Rises from ((j, t) ∷ calls) until = (from ≤ t) × Rises t calls until

Rises-le : (from : ℕ) (calls : List (Bytes × ℕ)) (until : ℕ) → Rises from calls until → from ≤ until
Rises-le from [] until h = h
Rises-le from ((j, t) ∷ calls) until h = omega (arith, Rises-le t calls until h.1)

IsValid-later : (l : Limiter) (now t : ℕ) → now ≤ t → IsValid l now → IsValid l t
IsValid-later l now t h v = record { keyed = v.keyed; seen = λ k b e. omega (arith, v.seen k b e) }

roomy-Survives :
    (l : Limiter) (key : Bytes) (now : ℕ) → length l.buckets + 1 < gc_threshold → Survives l key now
unfolding gc_due
roomy-Survives l key now h =
    inr
      (ground (arith, length-insert-le key (record { tokens = full l; last_seen = now }) l.buckets))

-- Every call finds the map with room for one more bucket below the size at which it is swept.
unfoldable pub uncrowded : Limiter → List (Bytes × ℕ) → Bool
uncrowded l [] = true
uncrowded l ((j, t) ∷ calls) =
    ltb (length l.buckets + 1) gc_threshold && uncrowded (allow l j t).0 calls

capped-le : (limit n : ℕ) → capped limit n ≤ n
unfolding capped
capped-le limit n = ground arith

-- The units that `k` may still spend between two times.
budget_step :
    (l : Limiter) (k : Bytes) (from t until : ℕ)
    → IsValid l from
    → from ≤ t
    → t ≤ until
    → level l k t + (until - t) * l.count ≤ level l k from + (until - from) * l.count
budget_step l k from t until v h e = omega (
  arith,
  level_later l k from t v h,
  capped-le (full l) (level l k from + (t - from) * l.count),
  elapsed_split from t until l.count h e,
)

-- One call, for this key or another.
call_step :
    (l : Limiter) (k j : Bytes) (t : ℕ)
    → IsValid l t
    → Survives l j t
    → level (allow l j t).0 k t + spent (j == k && (allow l j t).1) l.window ≡ level l k t
call_step l k j t v s = elim (Bool-cases (j == k)) [
  | inl q ↦ let e : j ≡ k = (bytes_beq_iff j k).0 q in rw q (rw (← e) (allow-Charged l j t v s).own)
  | inr q ↦ rw q (omega (arith, (allow-Charged l j t v s).others k t q (omega arith)))
]

-- As long as every call finds the map with room for one more bucket below the size at which it is swept,
-- however many calls there are, those allowed for one key over
-- a history spend no more than what the key had at the start and what was refilled since.
pub grants_bound :
    (k : Bytes) (l : Limiter) (from until : ℕ) (calls : List (Bytes × ℕ))
    → IsValid l from
    → Rises from calls until
    → uncrowded l calls ≡ true
    → grants k l calls * l.window ≤ level l k from + (until - from) * l.count
unfolding grants uncrowded
grants_bound k l from until [] v h room = omega arith
grants_bound k l from until ((j, t) ∷ calls) v h room =
    let w = IsValid-later l from t h.0 v in
    let s = roomy-Survives l j t (ground arith) in
    let c = allow-Charged l j t w s in
    let ih = grants_bound k (allow l j t).0 t until calls c.valid h.1 (ground arith) in
    let rest : grants k (allow l j t).0 calls * l.window
        ≤ level (allow l j t).0 k t + (until - t) * l.count =
      rw (c.limit, c.span) at ih in
    let step = call_step l k j t w s in
    let budget = budget_step l k from t until v h.0 (Rises-le t calls until h.1) in
    elim (Bool-cases (j == k && (allow l j t).1)) [
      | inl q ↦ rw (q, grants) (omega (arith, rest, budget, rw q at step))
      | inr q ↦ rw (q, grants) (omega (arith, rest, budget, rw q at step))
    ]

gc_forgets :
    (l : Limiter) (key : Bytes) (now : ℕ)
    → lookup key l.buckets ≡ none
    → IsKeyed l.buckets
    → gc_threshold ≤ length l.buckets + 1
    → since l.last_gc gc_interval now ≡ true
    → lookup key (gc (put l key (record { tokens = full l; last_seen = now })) now).buckets ≡ none
unfolding gc gc_due
gc_forgets l key now absent keyed large due =
    let b : Bucket = record { tokens = full l; last_seen = now } in
    let big = length-insert_absent key b l.buckets absent in
    let kept =
      lookup-filter_values (λ x. ltb (topped_up l x now) (full l)) key (insert key b l.buckets)
        (insert-IsKeyed key b l.buckets keyed) in
    ground (
      arith,
      big,
      kept,
      lookup-insert key key b l.buckets,
      beq_refl key,
      no_time (full l) now l.count,
    )

refill_absent :
    (l : Limiter) (key : Bytes) (now : ℕ)
    → lookup key l.buckets ≡ none
    → refill l key now ≡ (
      record { tokens = full l; last_seen = now },
      gc (put l key (record { tokens = full l; last_seen = now })) now,
    )
unfolding refill
refill_absent l key now absent = rw (absent, refill)

-- A first call for a key while the map is large and its sweep is due is allowed and not recorded:
-- the sweep drops the full bucket that the call is about to charge.
pub allow_forgets :
    (l : Limiter) (key : Bytes) (now : ℕ)
    → IsKeyed l.buckets
    → 0 < l.count
    → lookup key l.buckets ≡ none
    → gc_threshold ≤ length l.buckets + 1
    → since l.last_gc gc_interval now ≡ true
    → ((allow l key now).1 ≡ true) × (lookup key (allow l key now).0.buckets ≡ none)
unfolding allow
allow_forgets l key now keyed pos absent large due =
    let b : Bucket = record { tokens = full l; last_seen = now } in
    let swept = gc_forgets l key now absent keyed large due in
    let affordable : l.window ≤ l.count * l.window = grind arith in
    rw (refill_absent l key now absent) (unfold write in ground (arith, swept, affordable))
