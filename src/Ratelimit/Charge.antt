-- ===== src/Ratelimit/Charge.antt =====
-- What one call of `allow` does to the levels.
use vps_scaffold_auth.Common.{
  ℕ, ◌+◌, ◌-◌, ◌*◌, ◌≤◌, ◌≡◌, refl, ap, ◌∙◌, inl, inr, Bool, true, false, arith, leb, if◌then◌else◌,
  leb→le, Bool-cases, Option-cases, is_some, ◌==◌, Bytes, nat_eq, bytes_eq, pair_eq, beq_refl,
}
use vps_scaffold_auth.Common.Table.{lookup, lookup-insert}
use vps_scaffold_auth.Ratelimit.{Bucket, Limiter, full, topped_up, capped, gc, refill, write, allow}
use vps_scaffold_auth.Ratelimit.Level.{level, level-le-full, IsValid, Survives}
use vps_scaffold_auth.Ratelimit.Gc.{gc_same, gc-IsValid, put, level-gc, level-put, put-IsValid}

pub no_time : (n t c : ℕ) → n + (t - t) * c ≡ n
no_time n t c = let e : t - t ≡ 0 = omega arith in rw e (omega arith)

fresh_level : (limit t c : ℕ) → capped limit (limit + (t - t) * c) ≡ limit
unfolding capped
fresh_level limit t c = ground (arith, no_time limit t c)

capped_again : (limit n t c : ℕ) → capped limit (capped limit n + (t - t) * c) ≡ capped limit n
unfolding capped
capped_again limit n t c = rw (no_time (capped limit n) t c) (ground arith)

-- What `refill` returns: the key's level, in a bucket seen now, and a limiter in which the other
-- keys have their levels.
pub record Refilled (l : Limiter) (key : Bytes) (now : ℕ) (b : Bucket) (l' : Limiter) : Type 0 where
  pub tokens : b.tokens ≡ level l key now
  pub seen : b.last_seen ≡ now
  pub own : level l' key now ≡ level l key now
  pub others : (j : Bytes) (t : ℕ) → (key == j) ≡ false → now ≤ t → level l' j t ≡ level l j t
  pub limit : l'.count ≡ l.count
  pub span : l'.window ≡ l.window
  pub valid : IsValid l' now

pub refill-Refilled :
    (l : Limiter) (key : Bytes) (now : ℕ)
    → IsValid l now
    → Refilled l key now (refill l key now).0 (refill l key now).1
unfolding refill level
refill-Refilled l key now v = elim (Option-cases (lookup key l.buckets)) [
  | inl e ↦
      let b : Bucket = record { tokens = full l; last_seen = now } in
      let valid = put-IsValid l key b now (omega arith) v in
      let same = gc_same (put l key b) now in
      rw (e, refill)
        (record {
          tokens = rw (e, level);
          seen = refl;
          own =
              level-gc (put l key b) key now now valid.keyed (omega arith)
              ∙ level-put l key key b now
              ∙ rw (beq_refl key, e, level) (fresh_level (full l) now l.count);
          others = λ j t ne h.
              level-gc (put l key b) j now t valid.keyed h ∙ level-put l key j b t ∙ rw ne;
          limit = same.0;
          span = same.1;
          valid = gc-IsValid (put l key b) now valid;
        })
  | inr (x, e) ↦
      let b : Bucket = record { tokens = capped (full l) (topped_up l x now); last_seen = now } in
      rw (e, refill)
        (record {
          tokens = rw (e, level);
          seen = refl;
          own =
              level-put l key key b now
              ∙ rw (beq_refl key, e, level) (capped_again (full l) (topped_up l x now) now l.count);
          others = λ j t ne h. level-put l key j b t ∙ rw ne;
          limit = refl;
          span = refl;
          valid = put-IsValid l key b now (omega arith) v;
        })
]

-- The map still holds the bucket, when it survives.
pub refill-held :
    (l : Limiter) (key : Bytes) (now : ℕ)
    → Survives l key now
    → is_some (lookup key (refill l key now).1.buckets) ≡ true
unfolding refill gc
refill-held l key now s = elim (Option-cases (lookup key l.buckets)) [
  | inl e ↦ elim s [
    | inl h ↦ ground arith
    | inr d ↦
        rw (e, refill)
          (rw (d, gc)
            (rw (lookup-insert key key (record { tokens = full l; last_seen = now }) l.buckets)
              (rw (beq_refl key))))
  ]
  | inr (x, e) ↦ rw (e, refill) (rw (lookup-insert key key) (rw (beq_refl key)))
]

abbrev pub spent : Bool → ℕ → ℕ
spent granted window = if granted then window else 0

-- What one call of `allow` does to the levels: the key's falls by one token if the call is allowed,
-- and no other key's changes.
pub record Charged (l : Limiter) (key : Bytes) (now : ℕ) (r : Limiter × Bool) : Type 0 where
  pub own : level r.0 key now + spent r.1 l.window ≡ level l key now
  pub others : (j : Bytes) (t : ℕ) → (key == j) ≡ false → now ≤ t → level r.0 j t ≡ level l j t
  pub limit : r.0.count ≡ l.count
  pub span : r.0.window ≡ l.window
  pub valid : IsValid r.0 now

pub level-write :
    (l : Limiter) (key j : Bytes) (b : Bucket) (t : ℕ)
    → is_some (lookup key l.buckets) ≡ true
    → level (write l key b) j t
      ≡ (if key == j then capped (full l) (topped_up l b t) else level l j t)
unfolding write
level-write l key j b t h = rw h (level-put l key j b t)

write-IsValid :
    (l : Limiter) (key : Bytes) (b : Bucket) (now : ℕ)
    → b.last_seen ≤ now
    → IsValid l now
    → IsValid (write l key b) now
unfolding write
write-IsValid l key b now h v = elim (Bool-cases (is_some (lookup key l.buckets))) [
  | inl e ↦ rw (e, write) (put-IsValid l key b now h v)
  | inr e ↦ rw (e, write) v
]

charged_units : (limit n w t c : ℕ) → n ≤ limit → w ≤ n → capped limit (n - w + (t - t) * c) + w ≡ n
unfolding capped
charged_units limit n w t c h k = rw (no_time (n - w) t c) (ground arith)

write_same :
    (l : Limiter) (key : Bytes) (b : Bucket)
    → ((write l key b).count ≡ l.count) × ((write l key b).window ≡ l.window)
unfolding write
write_same l key b = ground arith

module _ (l : Limiter) (key : Bytes) (now : ℕ) (b : Bucket) (l' : Limiter)
    (f : Refilled l key now b l') (held : is_some (lookup key l'.buckets) ≡ true) where
  abbrev charged_bucket : Bucket
  charged_bucket = record b { tokens = b.tokens - l.window }

  charged_own :
      leb l.window b.tokens ≡ true
      → level (write l' key charged_bucket) key now + l.window ≡ level l key now
  charged_own q =
      ap (λ (n : ℕ). n + l.window)
        (level-write l' key key charged_bucket now held
          ∙ rw (beq_refl key, f.seen, f.limit, f.span))
      ∙ charged_units (full l) b.tokens l.window now l.count (rw f.tokens (level-le-full l key now))
          (leb→le l.window b.tokens q)
      ∙ f.tokens

  write-Charged :
      leb l.window b.tokens ≡ true → Charged l key now (write l' key charged_bucket, true)
  write-Charged q =
      let same = write_same l' key charged_bucket in
      record {
        own = charged_own q;
        others = λ j t ne h. level-write l' key j charged_bucket t held ∙ rw ne (f.others j t ne h);
        limit = same.0 ∙ f.limit;
        span = same.1 ∙ f.span;
        valid = write-IsValid l' key charged_bucket now (omega (arith, f.seen)) f.valid;
      }

-- `allow` charges the key's level and no other, if the bucket it charges is still in the map.
pub allow-Charged :
    (l : Limiter) (key : Bytes) (now : ℕ)
    → IsValid l now
    → Survives l key now
    → Charged l key now (allow l key now)
unfolding allow
allow-Charged l key now v s =
    let f = refill-Refilled l key now v in
    let held = refill-held l key now s in
    elim (Bool-cases (leb l.window (refill l key now).0.tokens)) [
      | inl q ↦
          rw (q, allow) (write-Charged l key now (refill l key now).0 (refill l key now).1 f held q)
      | inr q ↦
          rw (q, allow)
            (record {
              own = omega (arith, f.own);
              others = f.others;
              limit = f.limit;
              span = f.span;
              valid = f.valid;
            })
    ]
