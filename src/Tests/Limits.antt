-- ===== src/Tests/Limits.antt =====
-- The rate limiter on concrete limiters, one of them with a map that is due for a sweep.
use vps_scaffold_auth.Common.{
  ℕ, zero, suc, ◌+◌, ◌-◌, ◌*◌, ◌≤◌, ◌≡◌, refl, ap, inr, true, none, [], ◌∷◌, arith, Bytes,
  bytes_beq, bytes_beq_iff, nat_eq, bytes_eq, pair_eq, length,
}
use vps_scaffold_auth.Common.Text.{codes}
use vps_scaffold_auth.Common.Table.{Table, lookup, delete, insert, IsKeyed}
use vps_scaffold_auth.Ratelimit.{capped, write, refill, gc_due, Bucket, Limiter, new, gc, allow}
use vps_scaffold_auth.Ratelimit.Level.{level, IsValid, Survives}
use vps_scaffold_auth.Ratelimit.Gc.{level-gc}
use vps_scaffold_auth.Ratelimit.Rate.{uncrowded, grants, grants_bound, allow_forgets}

abbrev home : Bytes
home = codes "10.0.0.1"

abbrev two_a_second : Limiter
two_a_second = new 2 1000000000

two_a_second-IsValid : (now : ℕ) → IsValid two_a_second now
unfolding new lookup
two_a_second-IsValid now = record { keyed = tt; seen = λ k b e. absurd (ground arith) }

two_a_second-Survives : Survives two_a_second home 5
unfolding new gc_due insert delete
two_a_second-Survives = inr refl

level-gc_example : level (gc two_a_second 5) home 9 ≡ level two_a_second home 9
unfolding new
level-gc_example = level-gc two_a_second home 5 9 tt (omega arith)

grants_bound_example :
    grants home two_a_second ((home, 5) ∷ (home, 6) ∷ (home, 7) ∷ []) * two_a_second.window
    ≤ level two_a_second home 4 + (9 - 4) * two_a_second.count
unfolding new uncrowded allow refill insert delete lookup bytes_beq write gc gc_due capped
grants_bound_example =
    grants_bound home two_a_second 4 9 ((home, 5) ∷ (home, 6) ∷ (home, 7) ∷ [])
      (two_a_second-IsValid 4) (omega arith, (omega arith, (omega arith, omega arith))) refl

-- a map with a bucket for each of the one-byte keys below a number
crowd : ℕ → Table Bytes Bucket
crowd zero = []
crowd (suc n) = (n ∷ [], record { tokens = 0; last_seen = 0 }) ∷ crowd n

crowd-absent : (n m : ℕ) → n ≤ m → lookup (m ∷ []) (crowd n) ≡ none
unfolding crowd lookup
crowd-absent zero m h = refl
crowd-absent (suc n) m h = ground (arith, crowd-absent n m, bytes_beq_iff (n ∷ []) (m ∷ []))

crowd-other : (n : ℕ) → lookup home (crowd n) ≡ none
unfolding crowd lookup
crowd-other zero = refl
crowd-other (suc n) = ground (arith, crowd-other n, bytes_beq_iff (n ∷ []) home)

crowd-IsKeyed : (n : ℕ) → IsKeyed (crowd n)
unfolding crowd
crowd-IsKeyed zero = tt
crowd-IsKeyed (suc n) = (crowd-absent n n (omega arith), crowd-IsKeyed n)

length-crowd : (n : ℕ) → length (crowd n) ≡ n
unfolding crowd
length-crowd zero = refl
length-crowd (suc n) = ap suc (length-crowd n)

abbrev crowded : Limiter
crowded = record { buckets = crowd 1000; count = 2; window = 1000000000; last_gc = none }

allow_forgets_example :
    ((allow crowded home 5).1 ≡ true) × (lookup home (allow crowded home 5).0.buckets ≡ none)
allow_forgets_example =
    allow_forgets crowded home 5 (crowd-IsKeyed 1000) (omega arith) (crowd-other 1000)
      (omega (arith, length-crowd 1000)) refl
