-- ===== src/Store/Walk/Exact.antt =====
-- The recursive query with enough rounds: what it finds, exactly.
use vps_scaffold_auth.Common.{
  ℕ, zero, suc, ◌+◌, ◌≤◌, ◌≡◌, ap, ◌↔◌, ◌⊎◌, inl, inr, true, List, [], ◌∷◌, arith, Bool-cases, ◌==◌,
  Bytes, bytes_beq_iff, nat_eq, bytes_eq, pair_eq, beq_refl, length, all, contains,
}
use vps_scaffold_auth.Store.Walk.{Search, offer_all, walk, closure}
use vps_scaffold_auth.Store.Walk.Reach.{
  offer_all-kept, In, size, offer_all-size, offer_all-found, offer_all-queue, offer_all-kept,
  offer_all-queued, length-offer_all, unseen-le,
}

-- The walks along `next`.
pub data Reach (next : Bytes → List Bytes) (x : Bytes) : Bytes → Type 0 where
  here : Reach next x x
  step : {y z : Bytes} → Reach next x y → In (next y) z → Reach next x z

module _ (next : Bytes → List Bytes) where
  abbrev Closed : List Bytes → Type 0
  Closed l = (x y : Bytes) → In l x → In (next x) y → In l y

  -- A row that is found waits in the queue, or what it brings in is found.
  abbrev Queued : List Bytes → List Bytes → Type 0
  Queued found queue =
      (x : Bytes) → In found x → (In queue x) ⊎ ((y : Bytes) → In (next x) y → In found y)

  pending_step :
      (found queue : List Bytes) (x : Bytes)
      → Queued found (x ∷ queue)
      → let s = offer_all (record { found = found; queue = queue }) (next x) in
        Queued s.found s.queue
  pending_step found queue x pending z m =
      let s : Search = record { found = found; queue = queue } in
      elim (offer_all-queue s (next x) z m) [
        | inr q ↦ inl q
        | inl f ↦ elim (pending z f) [
          | inr all_found ↦ inr (λ y b. ground (arith, offer_all-found s (next x) y, all_found y b))
          | inl q ↦ elim (Bool-cases (x == z)) [
            | inl e ↦
                let same : x ≡ z = (bytes_beq_iff x z).0 e in
                inr (λ y b.
                  ground (arith, offer_all-found s (next x) y, ap (λ w. contains (next w) y) same))
            | inr e ↦ inl (offer_all-kept s (next x) z (ground arith))
          ]
        ]
      ]

  walk-Closed :
      (universe : List Bytes)
      → ((x : Bytes) → all (contains universe) (next x) ≡ true)
      → (fuel : ℕ) (found queue : List Bytes)
      → size universe (record { found = found; queue = queue }) ≤ fuel
      → Queued found queue
      → Closed (walk next fuel found queue)
        × ((x : Bytes) → In found x → In (walk next fuel found queue) x)
  unfolding walk
  walk-Closed universe inside zero found [] h pending =
      (λ x y m b. elim (pending x m) [ inl q ↦ absurd (ground arith) | inr f ↦ f y b ], λ x m. m)
  walk-Closed universe inside zero found (x ∷ queue) h pending = absurd (omega arith)
  walk-Closed universe inside (suc fuel) found [] h pending =
      (λ x y m b. elim (pending x m) [ inl q ↦ absurd (ground arith) | inr f ↦ f y b ], λ x m. m)
  walk-Closed universe inside (suc fuel) found (x ∷ queue) h pending =
      let s : Search = record { found = found; queue = queue } in
      let t = offer_all s (next x) in
      let (closed, kept) =
        walk-Closed universe inside fuel t.found t.queue
          (omega (arith, offer_all-size universe s (next x) (inside x)))
          (pending_step found queue x pending) in
      (closed, λ z m. kept z (ground (arith, offer_all-found s (next x) z)))

  found_cases :
      (s : Search) (ys : List Bytes) (x : Bytes)
      → In (offer_all s ys).found x
      → (In s.found x) ⊎ (In ys x)
  found_cases s ys x m = ground (arith, offer_all-found s ys x)

  -- What is found has a property that the rows it starts with have and that `next` keeps.
  walk-sound :
      (Good : Bytes → Type 0)
      → ((x y : Bytes) → Good x → In (next x) y → Good y)
      → (fuel : ℕ) (found queue : List Bytes) → ((x : Bytes) → In found x → Good x)
      → ((x : Bytes) → In queue x → Good x)
      → (x : Bytes) → In (walk next fuel found queue) x
      → Good x
  unfolding walk
  walk-sound Good keeps zero found queue good inq x m = good x m
  walk-sound Good keeps (suc fuel) found [] good inq x m = good x m
  walk-sound Good keeps (suc fuel) found (y ∷ queue) good inq x m =
      let s : Search = record { found = found; queue = queue } in
      let t = offer_all s (next y) in
      let good_y : Good y = inq y (ground (arith, beq_refl y)) in
      walk-sound Good keeps fuel t.found t.queue
        (λ z m. elim (found_cases s (next y) z m) [ inl f ↦ good z f | inr b ↦ keeps y z good_y b ])
        (λ z m. elim (offer_all-queued s (next y) z m) [
          | inl q ↦ inq z (ground arith)
          | inr b ↦ keeps y z good_y b
        ])
        x m

  start-size :
      (universe rows : List Bytes)
      → size universe (offer_all (record { found = []; queue = [] }) rows)
        ≤ length rows + length universe
  start-size universe rows =
      let s : Search = record { found = []; queue = [] } in
      omega (arith, length-offer_all s rows, unseen-le (offer_all s rows).found universe)

  start-Queued :
      (rows : List Bytes)
      → let t = offer_all (record { found = []; queue = [] }) rows in Queued t.found t.queue
  start-Queued rows x m = elim (offer_all-queue (record { found = []; queue = [] }) rows x m) [
    | inl f ↦ absurd (ground arith)
    | inr q ↦ inl q
  ]

  along : (l : List Bytes) → Closed l → (x y : Bytes) → Reach next x y → In l x → In l y
  along l closed x _ Reach.here m = m
  along l closed x z (Reach.step {y = y} r e) m = closed y z (along l closed x y r m) e

  -- With as many rounds as the starting rows and a list of all rows that `next` can bring in, the
  -- query ends with its queue empty, and it finds exactly the rows to which there is a walk from a
  -- starting row.
  pub closure-exact :
      (universe : List Bytes) (fuel : ℕ) (rows : List Bytes)
      → ((x : Bytes) → all (contains universe) (next x) ≡ true)
      → length rows + length universe ≤ fuel
      → (y : Bytes) → (In (closure next fuel rows) y) ↔ ((x : Bytes) × (In rows x) × Reach next x y)
  unfolding closure
  closure-exact universe fuel rows inside h y =
      let s : Search = record { found = []; queue = [] } in
      let t = offer_all s rows in
      let (closed, kept) =
        walk-Closed universe inside fuel t.found t.queue (omega (arith, start-size universe rows))
          (start-Queued rows) in
      (
        walk-sound (λ z. (x : Bytes) × (In rows x) × Reach next x z)
            (λ a b (x, m, r) e. (x, m, Reach.step r e)) fuel t.found t.queue
            (λ z m. elim (found_cases s rows z m) [
              | inl f ↦ absurd (ground arith)
              | inr b ↦ (z, b, Reach.here)
            ])
            (λ z m. elim (offer_all-queued s rows z m) [
              | inl f ↦ absurd (ground arith)
              | inr b ↦ (z, b, Reach.here)
            ])
            y,
        λ (x, m, r).
            along (walk next fuel t.found t.queue) closed x y r
              (kept x (ground (arith, offer_all-found s rows x))),
      )
