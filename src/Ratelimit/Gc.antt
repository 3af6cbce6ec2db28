-- ===== src/Ratelimit/Gc.antt =====
-- The sweep `gc` and the levels of the keys.
use vps_scaffold_auth.Common.{
  ℕ, ◌-◌, ◌*◌, ◌≤◌, ◌≡◌, refl, inl, inr, Bool, Option, none, some, arith, ltb, if◌then◌else◌,
  Bool-cases, ◌==◌, Bytes, nat_eq, bytes_eq, pair_eq,
}
use vps_scaffold_auth.Common.Table.{
  lookup, insert, lookup-insert, keep_value, IsKeyed, lookup-filter_values, filter_values-IsKeyed,
  insert-IsKeyed,
}
use vps_scaffold_auth.Ratelimit.{Bucket, Limiter, full, topped_up, capped, gc_due, gc}
use vps_scaffold_auth.Ratelimit.Level.{IsValid, level, level_of}

pub gc_same :
    (l : Limiter) (now : ℕ) → ((gc l now).count ≡ l.count) × ((gc l now).window ≡ l.window)
unfolding gc
gc_same l now = ground arith

grown :
    (l : Limiter) (b : Bucket) (now t : ℕ)
    → now ≤ t
    → full l ≤ topped_up l b now
    → capped (full l) (topped_up l b t) ≡ full l
unfolding topped_up capped
grown l b now t h f =
    let more : (now - b.last_seen) * l.count ≤ (t - b.last_seen) * l.count = grind arith in
    ground arith

dropped_level :
    (l : Limiter) (o : Option Bucket) (now t : ℕ)
    → now ≤ t
    → level_of l (keep_value (λ b. ltb (topped_up l b now) (full l)) o) t ≡ level_of l o t
dropped_level l none now t h = refl
dropped_level l (some b) now t h = ground (arith, grown l b now t)

-- A sweep at `now` leaves every level, then and later, as it was.
pub level-gc :
    (l : Limiter) (key : Bytes) (now t : ℕ)
    → IsKeyed l.buckets
    → now ≤ t
    → level (gc l now) key t ≡ level l key t
unfolding gc level
level-gc l key now t keyed h = elim (Bool-cases (gc_due l now)) [
  | inl q ↦
      rw (q, gc)
        (rw (lookup-filter_values (λ b. ltb (topped_up l b now) (full l)) key l.buckets keyed)
          (dropped_level l (lookup key l.buckets) now t h))
  | inr q ↦ rw (q, gc)
]

abbrev pub put : Limiter → Bytes → Bucket → Limiter
put l key b = record l { buckets = insert key b l.buckets }

pub level-put :
    (l : Limiter) (key j : Bytes) (b : Bucket) (t : ℕ)
    → level (put l key b) j t
      ≡ (if key == j then capped (full l) (topped_up l b t) else level l j t)
unfolding level
level-put l key j b t = rw (lookup-insert key j b l.buckets) (ground arith)

pub put-IsValid :
    (l : Limiter) (key : Bytes) (b : Bucket) (now : ℕ)
    → b.last_seen ≤ now
    → IsValid l now
    → IsValid (put l key b) now
put-IsValid l key b now h v = record {
  keyed = insert-IsKeyed key b l.buckets v.keyed;
  seen = λ j x e. ground (arith, lookup-insert key j b l.buckets, v.seen j x);
}

keep_value-some :
    (p : Bucket → Bool) (o : Option Bucket) (b : Bucket) → keep_value p o ≡ some b → o ≡ some b
keep_value-some p none b h = h
keep_value-some p (some x) b h = ground arith

pub gc-IsValid : (l : Limiter) (now : ℕ) → IsValid l now → IsValid (gc l now) now
unfolding gc
gc-IsValid l now v = elim (Bool-cases (gc_due l now)) [
  | inl q ↦
      rw (q, gc)
        (record {
          keyed = filter_values-IsKeyed _ l.buckets v.keyed;
          seen = λ k b e. v.seen k b (
              keep_value-some _ (lookup k l.buckets) b
                (rw (lookup-filter_values _ k l.buckets v.keyed) at e));
        })
  | inr q ↦ rw (q, gc) v
]
