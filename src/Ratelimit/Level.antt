-- ===== src/Ratelimit/Level.antt =====
-- The abstract view of a limiter: the units that each key has at a time.
use vps_scaffold_auth.Common.{
  ℕ, ◌+◌, ◌-◌, ◌*◌, ◌≤◌, ◌≡◌, ap, ◌∙◌, ◌⊎◌, inl, inr, true, false, Option, none, some, arith, leb,
  Option-cases, is_some, Bytes, nat_eq, bytes_eq, pair_eq,
}
use vps_scaffold_auth.Common.Table.{lookup, insert, IsKeyed}
use vps_scaffold_auth.Ratelimit.{Bucket, Limiter, full, topped_up, capped, gc_due, refill, allow}

-- A key without a bucket has all its tokens.
abbrev pub level_of : Limiter → Option Bucket → ℕ → ℕ
level_of l none now = full l
level_of l (some b) now = capped (full l) (topped_up l b now)

unfoldable pub level : Limiter → Bytes → ℕ → ℕ
level l key now = level_of l (lookup key l.buckets) now

-- Each key has one bucket, and no bucket was seen later than `now`.
pub record IsValid (l : Limiter) (now : ℕ) : Type 0 where
  pub keyed : IsKeyed l.buckets
  pub seen : (k : Bytes) (b : Bucket) → lookup k l.buckets ≡ some b → b.last_seen ≤ now

-- A fresh bucket survives `refill` unless `gc` runs right after it is put in.
abbrev pub Survives : Limiter → Bytes → ℕ → Type 0
Survives l key now =
    (is_some (lookup key l.buckets) ≡ true)
    ⊎ (gc_due
          (record l {
            buckets = insert key (record { tokens = full l; last_seen = now }) l.buckets;
          })
          now
        ≡ false)

capped-le : (l n : ℕ) → capped l n ≤ l
unfolding capped
capped-le l n = ground arith

pub level-le-full : (l : Limiter) (key : Bytes) (now : ℕ) → level l key now ≤ full l
unfolding level
level-le-full l key now = elim (Option-cases (lookup key l.buckets)) [
  | inl e ↦ rw (e, level) (omega arith)
  | inr (b, e) ↦ rw (e, level) (capped-le (full l) (topped_up l b now))
]

-- The decision is read from the level alone, whether or not buckets are dropped.
pub allow-level :
    (l : Limiter) (key : Bytes) (now : ℕ) → (allow l key now).1 ≡ leb l.window (level l key now)
unfolding allow refill level
allow-level l key now = elim (Option-cases (lookup key l.buckets)) [
  | inl e ↦ rw (e, level) (rw (e, refill) (ground arith))
  | inr (b, e) ↦ rw (e, level) (rw (e, refill) (ground arith))
]

-- Time from `a` to `c` by way of `b`, in units.
pub elapsed_split : (a b c n : ℕ) → a ≤ b → b ≤ c → (c - a) * n ≡ (b - a) * n + (c - b) * n
elapsed_split a b c n h k =
    let e : c - a ≡ (b - a) + (c - b) = omega arith in ap (λ (t : ℕ). t * n) e ∙ omega arith

pub capped_add : (l n m : ℕ) → capped l (n + m) ≡ capped l (capped l n + m)
unfolding capped
capped_add l n m = ground arith

-- A level grows with time at the refill rate, up to the limit.
pub level_later :
    (l : Limiter) (key : Bytes) (now t : ℕ)
    → IsValid l now
    → now ≤ t
    → level l key t ≡ capped (full l) (level l key now + (t - now) * l.count)
unfolding level
level_later l key now t v h = elim (Option-cases (lookup key l.buckets)) [
  | inl e ↦ rw (e, level) (unfold capped in ground arith)
  | inr (b, e) ↦
      rw (e, level)
        (ap (capped (full l)) (
            ap (λ (n : ℕ). b.tokens + n)
              (elapsed_split b.last_seen now t l.count (v.seen key b e) h)
            ∙ omega arith)
          ∙ capped_add (full l) (b.tokens + (now - b.last_seen) * l.count) ((t - now) * l.count))
]
