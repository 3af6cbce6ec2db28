-- ===== src/Ratelimit/Refund.antt =====
-- What `refund` gives back.
use vps_scaffold_auth.Common.{
  ℕ, ◌+◌, ◌-◌, ◌*◌, ◌≤◌, ◌≡◌, ap, ◌∙◌, inl, inr, true, arith, leb, if◌then◌else◌, Bool-cases,
  is_some, ◌==◌, Bytes, bytes_beq_iff, nat_eq, bytes_eq, pair_eq, beq_refl,
}
use vps_scaffold_auth.Common.Table.{lookup, lookup-insert}
use vps_scaffold_auth.Ratelimit.{Bucket, Limiter, full, capped, refill, write, allow, refund}
use vps_scaffold_auth.Ratelimit.Level.{level, level-le-full, IsValid, Survives}
use vps_scaffold_auth.Ratelimit.Charge.{
  no_time, refill-Refilled, refill-held, level-write, allow-Charged,
}

refunded_units :
    (limit n w t c : ℕ) → capped limit (capped limit (n + w) + (t - t) * c) ≡ capped limit (n + w)
unfolding capped
refunded_units limit n w t c = rw (no_time (capped limit (n + w)) t c) (ground arith)

refund-level :
    (l : Limiter) (key j : Bytes) (now : ℕ)
    → IsValid l now
    → Survives l key now
    → level (refund l key now) j now
      ≡ (if key == j then capped (full l) (level l key now + l.window) else level l j now)
unfolding refund
refund-level l key j now v s =
    let f = refill-Refilled l key now v in
    let b : Bucket = record (refill l key now).0 {
      tokens = capped (full l) ((refill l key now).0.tokens + l.window);
    } in
    level-write (refill l key now).1 key j b now (refill-held l key now s)
    ∙ elim (Bool-cases (key == j)) [
      | inl q ↦
          rw (q, f.seen, f.limit, f.span, f.tokens)
            (refunded_units (full l) (level l key now) l.window now l.count)
      | inr q ↦ rw q (f.others j now q (omega arith))
    ]

write-held :
    (l : Limiter) (key : Bytes) (b : Bucket)
    → is_some (lookup key l.buckets) ≡ true
    → is_some (lookup key (write l key b).buckets) ≡ true
unfolding write
write-held l key b h = rw h (rw (lookup-insert key key b l.buckets) (rw (beq_refl key)))

allow-held :
    (l : Limiter) (key : Bytes) (now : ℕ)
    → Survives l key now
    → is_some (lookup key (allow l key now).0.buckets) ≡ true
unfolding allow
allow-held l key now s =
    let held = refill-held l key now s in
    elim (Bool-cases (leb l.window (refill l key now).0.tokens)) [
      | inl q ↦ rw (q, allow) (write-held (refill l key now).1 key _ held)
      | inr q ↦ rw (q, allow) held
    ]

back : (limit n m w : ℕ) → m + w ≡ n → n ≤ limit → capped limit (m + w) ≡ n
unfolding capped
back limit n m w e h = ground arith

-- A call that is allowed and then refunded at once leaves every key's level as it was, if the
-- bucket it charges is still in the map.
pub level-refund-allow :
    (l : Limiter) (key j : Bytes) (now : ℕ)
    → IsValid l now
    → Survives l key now
    → (allow l key now).1 ≡ true
    → level (refund (allow l key now).0 key now) j now ≡ level l j now
level-refund-allow l key j now v s ok =
    let c = allow-Charged l key now v s in
    refund-level (allow l key now).0 key j now c.valid (inl (allow-held l key now s))
    ∙ elim (Bool-cases (key == j)) [
      | inl q ↦
          let same : key ≡ j = (bytes_beq_iff key j).0 q in
          rw (q, c.limit, c.span)
            (back (full l) (level l key now) (level (allow l key now).0 key now) l.window
                (rw ok at c.own) (level-le-full l key now)
              ∙ ap (λ k. level l k now) same)
      | inr q ↦ rw q (c.others j now q (omega arith))
    ]
