-- ===== src/Store/Walk/Reach.antt =====
-- What the recursive query finds, against the walks from the rows it starts with.
use vps_scaffold_auth.Common.{
  ℕ, ◌+◌, ◌≤◌, ◌≡◌, ap, ◌⊎◌, inl, inr, true, false, not, ◌||◌, List, [], ◌∷◌, arith, Bool-cases,
  ◌==◌, Bytes, bytes_beq_iff, nat_eq, bytes_eq, pair_eq, beq_refl, length, all, count_if, contains,
  length-append, contains-append,
}
use vps_scaffold_auth.Store.Walk.{Search, offer, offer_all}

abbrev pub In : List Bytes → Bytes → Type 0
In l x = contains l x ≡ true

pub count_unseen : List Bytes → List Bytes → ℕ
count_unseen found universe = count_if (λ u. not (contains found u)) universe

unseen-cons-le :
    (found universe : List Bytes) (y : Bytes)
    → count_unseen (y ∷ found) universe ≤ count_unseen found universe
unfolding count_unseen
unseen-cons-le found [] y = omega arith
unseen-cons-le found (u ∷ us) y = ground (arith, unseen-cons-le found us y)

unseen-cons :
    (found universe : List Bytes) (y : Bytes)
    → contains found y ≡ false
    → In universe y
    → count_unseen (y ∷ found) universe + 1 ≤ count_unseen found universe
unfolding count_unseen
unseen-cons found [] y new here = absurd (ground arith)
unseen-cons found (u ∷ us) y new here = elim (Bool-cases (u == y)) [
  | inl q ↦
      let same : u ≡ y = (bytes_beq_iff u y).0 q in
      ground
        (arith, unseen-cons-le found us y, bytes_beq_iff y u, beq_refl y, ap (contains found) same)
  | inr q ↦ ground (arith, unseen-cons found us y)
]

abbrev pub size : List Bytes → Search → ℕ
size universe s = length s.queue + count_unseen s.found universe

offer-size :
    (universe : List Bytes) (s : Search) (y : Bytes)
    → In universe y
    → size universe (offer s y) ≤ size universe s
unfolding offer
offer-size universe s y here =
    ground (arith, unseen-cons s.found universe y, length-append s.queue (y ∷ []))

pub offer_all-size :
    (universe : List Bytes) (s : Search) (ys : List Bytes)
    → all (contains universe) ys ≡ true
    → size universe (offer_all s ys) ≤ size universe s
unfolding offer_all
offer_all-size universe s [] h = omega arith
offer_all-size universe s (y ∷ ys) h =
    ground (arith, offer-size universe s y, offer_all-size universe (offer s y) ys)

-- what a search has after an offer
offer-found :
    (s : Search) (y x : Bytes) → contains (offer s y).found x ≡ (contains s.found x || y == x)
unfolding offer
offer-found s y x = ground (arith, bytes_beq_iff y x)

pub offer_all-found :
    (s : Search) (ys : List Bytes) (x : Bytes)
    → contains (offer_all s ys).found x ≡ (contains s.found x || contains ys x)
unfolding offer_all
offer_all-found s [] x = ground arith
offer_all-found s (y ∷ ys) x = ground (arith, offer_all-found (offer s y) ys x, offer-found s y x)

-- What is found was found before, or waits in the queue.
offer-queue :
    (s : Search) (y x : Bytes) → In (offer s y).found x → (In s.found x) ⊎ (In (offer s y).queue x)
unfolding offer
offer-queue s y x h = ground (arith, contains-append s.queue (y ∷ []) x)

offer-kept : (s : Search) (y x : Bytes) → In s.queue x → In (offer s y).queue x
unfolding offer
offer-kept s y x h = ground (arith, contains-append s.queue (y ∷ []) x)

pub offer_all-kept :
    (s : Search) (ys : List Bytes) (x : Bytes) → In s.queue x → In (offer_all s ys).queue x
unfolding offer_all
offer_all-kept s [] x h = h
offer_all-kept s (y ∷ ys) x h = offer_all-kept (offer s y) ys x (offer-kept s y x h)

pub offer_all-queue :
    (s : Search) (ys : List Bytes) (x : Bytes)
    → In (offer_all s ys).found x
    → (In s.found x) ⊎ (In (offer_all s ys).queue x)
unfolding offer_all
offer_all-queue s [] x h = inl h
offer_all-queue s (y ∷ ys) x h = elim (offer_all-queue (offer s y) ys x h) [
  | inr q ↦ inr q
  | inl f ↦ elim (offer-queue s y x f) [
    | inl g ↦ inl g
    | inr g ↦ inr (offer_all-kept (offer s y) ys x g)
  ]
]

pub offer_all-queued :
    (s : Search) (ys : List Bytes) (x : Bytes)
    → In (offer_all s ys).queue x
    → (In s.queue x) ⊎ (In ys x)
unfolding offer_all offer
offer_all-queued s [] x m = inl m
offer_all-queued s (y ∷ ys) x m =
    ground (arith, offer_all-queued (offer s y) ys x, contains-append s.queue (y ∷ []) x)

-- A search that starts empty queues at most its rows.
pub length-offer_all :
    (s : Search) (ys : List Bytes) → length (offer_all s ys).queue ≤ length s.queue + length ys
unfolding offer_all offer
length-offer_all s [] = omega arith
length-offer_all s (y ∷ ys) =
    ground (arith, length-offer_all (offer s y) ys, length-append s.queue (y ∷ []))

pub unseen-le : (found universe : List Bytes) → count_unseen found universe ≤ length universe
unfolding count_unseen
unseen-le found [] = omega arith
unseen-le found (u ∷ us) = ground (arith, unseen-le found us)
