-- ===== src/Ratelimit.antt =====
-- internal/ratelimit/ratelimit.go: the token-bucket limiter. Times and the window are nanoseconds.
-- The code's floats are exact here: a token counts as `window` units, so the refill of
-- `elapsed * count / window` tokens is `elapsed * count` units, and float rounding is not modelled.
-- Clock readings passed to successive calls do not go back (Go's readings are monotonic).
pub mod Level
pub mod Gc
pub mod Charge
pub mod Rate
pub mod Refund
use vps_scaffold_auth.Common.{
  ℕ, zero, suc, ◌+◌, ◌-◌, ◌*◌, ◌/◌, ◌%◌, ◌≤◌, ◌<◌, max, String, ◌≡◌, refl, sym, ap, ◌∙◌, ◌≢◌, ◌↔◌,
  ◌⊎◌, inl, inr, Bool, true, false, not, ◌&&◌, ◌||◌, Option, none, some, List, [], ◌∷◌, ◌++◌, map,
  arith, ltb, leb, nat_beq, if◌then◌else◌, nat_beq_iff, ltb→lt, leb→le, Bool-cases, Option-cases,
  is_some, Eq, ◌==◌, Bytes, bytes_beq, bytes_beq_iff, pair_beq, nat_eq, bytes_eq, pair_eq, beq_refl,
  length, is_nil, drop, any, all, keep, count_if, contains, any-append, all-append, length-append,
  contains-append, contains-keep, all-contains,
}
use vps_scaffold_auth.Common.Text.{
  codes, is_space, lower, to_lower, trim_left, trim_right, trim_space, last_index, cons_head,
  split_by, split, fields_func, join, cut, has_prefix, has_suffix, trim_prefix,
}
use vps_scaffold_auth.Common.Table.{
  Table, lookup, delete, insert, lookup-delete, lookup-insert, length-delete-le, length-insert-le,
  keep_value, filter_values, IsKeyed, lookup-filter_values, filter_values-IsKeyed, insert-IsKeyed,
  delete-IsKeyed, length-insert_present, length-insert_absent, filter_keys, lookup-filter_keys,
}

pub record Bucket : Type 0 where
  pub tokens : ℕ
  pub last_seen : ℕ

pub record Limiter : Type 0 where
  pub buckets : Table Bytes Bucket
  pub count : ℕ
  pub window : ℕ
  pub last_gc : Option ℕ  -- `none` is the zero time, which is always long ago

unfoldable pub new : ℕ → ℕ → Limiter
new count window = record { buckets = []; count = count; window = window; last_gc = none }

abbrev pub gc_threshold : ℕ
gc_threshold = 1000

abbrev pub gc_interval : ℕ
gc_interval = 1000000000

-- the limit in units
abbrev pub full : Limiter → ℕ
full l = l.count * l.window

-- a bucket's units, topped up for the time since it was last seen, before the cap
abbrev pub topped_up : Limiter → Bucket → ℕ → ℕ
topped_up l b now = b.tokens + (now - b.last_seen) * l.count

-- the cap of a bucket at the limit
unfoldable pub capped : ℕ → ℕ → ℕ
capped limit n = if ltb limit n then limit else n

abbrev pub since : Option ℕ → ℕ → ℕ → Bool
since none interval now = true
since (some t) interval now = leb interval (now - t)

-- whether `gc` gets past its early return
unfoldable pub gc_due : Limiter → ℕ → Bool
gc_due l now = not (ltb (length l.buckets) gc_threshold) && since l.last_gc gc_interval now

unfoldable pub gc : Limiter → ℕ → Limiter
gc l now =
    if gc_due l now
    then record l {
      last_gc = some now;
      buckets = filter_values (λ b. ltb (topped_up l b now) (full l)) l.buckets;
    }
    else l

-- The bucket, and the limiter whose map holds it unless `gc` dropped it.
unfoldable pub refill : Limiter → Bytes → ℕ → Bucket × Limiter
refill l key now = elim (lookup key l.buckets) [
  | none ↦
      let b : Bucket = record { tokens = full l; last_seen = now } in
      (b, gc (record l { buckets = insert key b l.buckets }) now)
  | some b ↦
      let b' : Bucket = record { tokens = capped (full l) (topped_up l b now); last_seen = now } in
      (b', record l { buckets = insert key b' l.buckets })
]

-- A write through the pointer that `refill` returned: it reaches the map only if the map still
-- holds the bucket.
unfoldable pub write : Limiter → Bytes → Bucket → Limiter
write l key b =
    if is_some (lookup key l.buckets) then record l { buckets = insert key b l.buckets } else l

unfoldable pub allow : Limiter → Bytes → ℕ → Limiter × Bool
allow l key now =
    let (b, l') = refill l key now in
    if leb l.window b.tokens
    then (write l' key (record b { tokens = b.tokens - l.window }), true)
    else (l', false)

unfoldable pub refund : Limiter → Bytes → ℕ → Limiter
refund l key now =
    let (b, l') = refill l key now in
    write l' key (record b { tokens = capped (full l) (b.tokens + l.window) })
