-- ===== src/Store/Groups/Cycle.antt =====
-- Includes that would close a cycle.
use vps_scaffold_auth.Common.{
  ℕ, ◌≡◌, refl, sym, ◌∙◌, ◌↔◌, ◌⊎◌, inl, inr, Bool, true, false, not, ◌&&◌, List, [], ◌∷◌, arith,
  Bool-cases, is_some, ◌==◌, Bytes, bytes_beq_iff, nat_eq, bytes_eq, pair_eq, contains,
}
use vps_scaffold_auth.Common.Table.{Table, lookup, delete, insert, filter_keys}
use vps_scaffold_auth.Store.Walk.Reach.{In}
use vps_scaffold_auth.Store.Walk.Exact.{Reach}
use vps_scaffold_auth.Store.Groups.{
  Groups, keys, exists_group, included_by, include_cycle, below, add_group_include,
  remove_group_include, delete_group, create_group,
}
use vps_scaffold_auth.Store.Groups.Resolve.{contains-seconds_of, below-exact, Reach-before}

-- No group reaches itself along one include or more.
abbrev pub Acyclic : Groups → Type 0
Acyclic s = (x y : Bytes) → In (included_by s x) y → Reach (included_by s) y x → ⊥

below_iff :
    (s : Groups) (inc name : Bytes)
    → (In (below s inc) name)
      ↔ ((y : Bytes) × (In (included_by s inc) y) × Reach (included_by s) y name)
unfolding below
below_iff s inc name = below-exact s (included_by s inc) name

-- A walk is empty or starts with an include.
first_step :
    (next : Bytes → List Bytes) (x z : Bytes)
    → Reach next x z
    → (x ≡ z) ⊎ ((y : Bytes) × (In (next x) y) × Reach next y z)
first_step next x _ Reach.here = inl refl
first_step next x z (Reach.step {y = y} r e) = elim (first_step next x y r) [
  | inl q ↦ inr (z, rw q e, Reach.here)
  | inr (w, f, t) ↦ inr (w, f, Reach.step t e)
]

-- An include is refused as a cycle exactly when the group it would add already reaches the other.
pub include_cycle_iff :
    (s : Groups) (group inc : Bytes) (now : ℕ)
    → ((add_group_include s group inc now).1 ≡ include_cycle) ↔ Reach (included_by s) inc group
unfolding add_group_include
include_cycle_iff s group inc now = (
  λ h. elim (Bool-cases (group == inc)) [
    | inl q ↦ let e : group ≡ inc = (bytes_beq_iff group inc).0 q in rw e Reach.here
    | inr q ↦
        let (y, e, r) = (below_iff s inc group).0 (ground arith) in
        Reach-before (included_by s) inc y group e r
  ],
  λ r. elim (first_step (included_by s) inc group r) [
    | inl q ↦ ground (arith, bytes_beq_iff group inc)
    | inr f ↦ let m : In (below s inc) group = (below_iff s inc group).1 f in ground arith
  ],
)

join_walks :
    (next : Bytes → List Bytes) (x y z : Bytes) → Reach next x y → Reach next y z → Reach next x z
join_walks next x y _ a Reach.here = a
join_walks next x y z a (Reach.step {y = w} r e) = Reach.step (join_walks next x y w a r) e

-- One more include: what it adds.
module _ (s t : Groups) (g i : Bytes)
    (grown : (x y : Bytes)
      → In (included_by t x) y
      → (In (included_by s x) y) ⊎ ((g ≡ x) × (i ≡ y))) where
  split_walk :
      (x y : Bytes)
      → Reach (included_by t) x y
      → Reach (included_by s) x y ⊎ (Reach (included_by s) x g × Reach (included_by s) i y)
  split_walk x _ Reach.here = inl Reach.here
  split_walk x z (Reach.step {y = y} r e) = elim (split_walk x y r) [
    | inl a ↦ elim (grown y z e) [
      | inl f ↦ inl (Reach.step a f)
      | inr (p, q) ↦ inr (rw p a, rw q Reach.here)
    ]
    | inr (a, b) ↦ elim (grown y z e) [
      | inl f ↦ inr (a, Reach.step b f)
      | inr (p, q) ↦ inr (a, rw q Reach.here)
    ]
  ]

  grown-Acyclic : Acyclic s → (Reach (included_by s) i g → ⊥) → Acyclic t
  grown-Acyclic acyclic apart x y e r = elim (grown x y e) [
    | inl f ↦ elim (split_walk y x r) [
      | inl a ↦ acyclic x y f a
      | inr (a, b) ↦
          apart (join_walks (included_by s) i x g b (Reach-before (included_by s) x y g f a))
    ]
    | inr (p, q) ↦ elim (split_walk y x r) [
      | inl a ↦ apart (rw (p, q) a)
      | inr (a, b) ↦ apart (rw q a)
    ]
  ]

contains-keys-delete :
    (k a : Bytes × Bytes) (t : Table (Bytes × Bytes) ℕ)
    → contains (keys (delete k t)) a ≡ true
    → contains (keys t) a ≡ true
unfolding delete
contains-keys-delete k a [] h = h
contains-keys-delete k a ((j, v) ∷ t) h = ground (arith, contains-keys-delete k a t)

contains-keys-insert :
    (k a : Bytes × Bytes) (v : ℕ) (t : Table (Bytes × Bytes) ℕ)
    → contains (keys (insert k v t)) a ≡ true
    → ((k == a) ≡ true) ⊎ (contains (keys t) a ≡ true)
unfolding insert
contains-keys-insert k a v t h = ground (arith, contains-keys-delete k a t)

contains-keys_filter :
    (p : Bytes × Bytes → Bool) (a : Bytes × Bytes) (t : Table (Bytes × Bytes) ℕ)
    → contains (keys (filter_keys p t)) a ≡ true
    → contains (keys t) a ≡ true
unfolding filter_keys
contains-keys_filter p a [] h = h
contains-keys_filter p a ((j, v) ∷ t) h = ground (arith, contains-keys_filter p a t)

-- Fewer includes.
fewer-Acyclic :
    (s t : Groups)
    → ((x y : Bytes) → In (included_by t x) y → In (included_by s x) y)
    → Acyclic s
    → Acyclic t
fewer-Acyclic s t less acyclic x y e r = acyclic x y (less x y e) (walks y x r)
  where
    walks : (a b : Bytes) → Reach (included_by t) a b → Reach (included_by s) a b
    walks a _ Reach.here = Reach.here
    walks a c (Reach.step {y = b} q f) = Reach.step (walks a b q) (less b c f)

pair_in :
    (s : Groups) (x y : Bytes) → contains (included_by s x) y ≡ contains (keys s.includes) (x, y)
pair_in s x y = contains-seconds_of (keys s.includes) x y

added_edge :
    (s : Groups) (g i : Bytes) (now : ℕ) (x y : Bytes)
    → In (included_by (record s { includes = insert (g, i) now s.includes }) x) y
    → (In (included_by s x) y) ⊎ ((g ≡ x) × (i ≡ y))
added_edge s g i now x y e =
    elim (contains-keys-insert (g, i) (x, y) now s.includes
      (sym (pair_in (record s { includes = insert (g, i) now s.includes }) x y) ∙ e)) [
        | inl q ↦ inr ((bytes_beq_iff g x).0 (ground arith), (bytes_beq_iff i y).0 (ground arith))
        | inr m ↦ inl (pair_in s x y ∙ m)
      ]

not_reached :
    (s : Groups) (g i : Bytes)
    → (g == i) ≡ false
    → contains (below s i) g ≡ false
    → Reach (included_by s) i g
    → ⊥
not_reached s g i apart clear r = elim (first_step (included_by s) i g r) [
  | inl q ↦ absurd (ground (arith, bytes_beq_iff g i))
  | inr f ↦ let m : In (below s i) g = (below_iff s i g).1 f in absurd (ground arith)
]

add_group_include-Acyclic :
    (s : Groups) (group inc : Bytes) (now : ℕ)
    → Acyclic s
    → Acyclic (add_group_include s group inc now).0
unfolding add_group_include
add_group_include-Acyclic s group inc now acyclic =
    let t : Groups = record s { includes = insert (group, inc) now s.includes } in
    elim (Bool-cases (group == inc)) [
      | inl q ↦ rw (q, add_group_include) acyclic
      | inr q ↦ elim (Bool-cases (contains (below s inc) group)) [
        | inl b ↦ rw (q, b, add_group_include) acyclic
        | inr b ↦ elim (Bool-cases (exists_group s group && exists_group s inc)) [
          | inr x ↦ rw (q, b, x, add_group_include) acyclic
          | inl x ↦ elim (Bool-cases (is_some (lookup (group, inc) s.includes))) [
            | inl old ↦ rw (q, b, x, old, add_group_include) acyclic
            | inr new ↦
                rw (q, b, x, new, add_group_include)
                  (grown-Acyclic s t group inc (λ x y e. added_edge s group inc now x y e) acyclic
                    (λ r. not_reached s group inc q b r))
          ]
        ]
      ]
    ]

-- The changes of the includes, and of the groups they stand between.
pub data Change : Type 0 where
  include_group : Bytes → Bytes → ℕ → Change
  exclude_group : Bytes → Bytes → Change
  drop_group : Bytes → Change
  new_group : Bytes → Bytes → ℕ → Change

unfoldable pub apply : Groups → Change → Groups
apply s (include_group group inc now) = (add_group_include s group inc now).0
apply s (exclude_group group inc) = remove_group_include s group inc
apply s (drop_group name) = delete_group s name
apply s (new_group name label now) = create_group s name label now

unfoldable pub apply_each : Groups → List Change → Groups
apply_each s [] = s
apply_each s (c ∷ cs) = apply_each (apply s c) cs

apply-Acyclic : (s : Groups) (c : Change) → Acyclic s → Acyclic (apply s c)
unfolding apply remove_group_include delete_group create_group
apply-Acyclic s (include_group group inc now) a = add_group_include-Acyclic s group inc now a
apply-Acyclic s (exclude_group group inc) a =
    fewer-Acyclic s (remove_group_include s group inc)
      (λ x y e. ground (
        arith,
        pair_in s x y,
        pair_in (remove_group_include s group inc) x y,
        contains-keys-delete (group, inc) (x, y) s.includes,
      ))
      a
apply-Acyclic s (drop_group name) a =
    fewer-Acyclic s (delete_group s name)
      (λ x y e. ground (
        arith,
        pair_in s x y,
        pair_in (delete_group s name) x y,
        contains-keys_filter (λ k. not (k.0 == name) && not (k.1 == name)) (x, y) s.includes,
      ))
      a
apply-Acyclic s (new_group name label now) a =
    fewer-Acyclic s (create_group s name label now) (λ x y e. e) a

each-Acyclic : (s : Groups) (cs : List Change) → Acyclic s → Acyclic (apply_each s cs)
unfolding apply_each
each-Acyclic s [] a = a
each-Acyclic s (c ∷ cs) a = each-Acyclic (apply s c) cs (apply-Acyclic s c a)

-- Whatever includes are added and removed, and whatever groups are created and deleted, no group
-- comes to include itself, directly or through others, if none did before.
pub no_cycle :
    (s : Groups) (cs : List Change)
    → ((x : Bytes) → contains (below s x) x ≡ false)
    → (x : Bytes) → contains (below (apply_each s cs) x) x ≡ false
no_cycle s cs h x = elim (Bool-cases (contains (below (apply_each s cs) x) x)) [
  | inr q ↦ q
  | inl q ↦
      let (y, e, r) = (below_iff (apply_each s cs) x x).0 q in
      absurd (
        each-Acyclic s cs (λ a b f w. absurd (ground (arith, h a, (below_iff s a a).1 (b, f, w)))) x
          y e r)
]
