-- ===== src/Store/Groups/Resolve.antt =====
-- The groups of an address and the addresses of a group, as walks along the includes.
use vps_scaffold_auth.Common.{
  suc, ◌≡◌, refl, sym, ap, ◌∙◌, ◌↔◌, inl, inr, Bool, true, false, ◌&&◌, ◌||◌, some, List, [], ◌∷◌,
  arith, Bool-cases, ◌==◌, Bytes, bytes_beq_iff, nat_eq, bytes_eq, pair_eq, beq_refl, length, all,
  contains,
}
use vps_scaffold_auth.Store.Walk.{closure}
use vps_scaffold_auth.Store.Walk.Reach.{In}
use vps_scaffold_auth.Store.Walk.Exact.{Reach, closure-exact}
use vps_scaffold_auth.Store.Groups.{
  Groups, insert_sorted, order_by, distinct, keys, seconds_of, firsts_of, included_by, including,
  rounds, groups_for_email, members_of_any, group_members_resolved,
}

contains-insert_sorted :
    (x : Bytes) (l : List Bytes) (a : Bytes)
    → contains (insert_sorted x l) a ≡ (x == a || contains l a)
unfolding insert_sorted
contains-insert_sorted x [] a = refl
contains-insert_sorted x (y ∷ ys) a = ground (arith, contains-insert_sorted x ys a)

pub contains-order_by : (l : List Bytes) (a : Bytes) → contains (order_by l) a ≡ contains l a
unfolding order_by
contains-order_by [] a = refl
contains-order_by (x ∷ xs) a =
    ground (arith, contains-order_by xs a, contains-insert_sorted x (order_by xs) a)

contains-distinct : (l : List Bytes) (a : Bytes) → contains (distinct l) a ≡ contains l a
unfolding distinct
contains-distinct [] a = refl
contains-distinct (x ∷ xs) a = elim (Bool-cases (x == a)) [
  | inl q ↦
      let same : x ≡ a = (bytes_beq_iff x a).0 q in
      ground (arith, contains-distinct xs a, ap (contains (distinct xs)) same)
  | inr q ↦ ground (arith, contains-distinct xs a)
]

abbrev pub Pairs : Type 0
Pairs = List (Bytes × Bytes)

pub contains-seconds_of :
    (l : Pairs) (k b : Bytes) → contains (seconds_of l k) b ≡ contains l (k, b)
unfolding seconds_of
contains-seconds_of [] k b = refl
contains-seconds_of ((x, y) ∷ l) k b = ground (arith, contains-seconds_of l k b)

pub contains-firsts_of : (l : Pairs) (k a : Bytes) → contains (firsts_of l k) a ≡ contains l (a, k)
unfolding firsts_of
contains-firsts_of [] k a = refl
contains-firsts_of ((x, y) ∷ l) k a = ground (arith, contains-firsts_of l k a)

all_firsts : Pairs → List Bytes
all_firsts [] = []
all_firsts ((a, b) ∷ l) = a ∷ all_firsts l

all_seconds : Pairs → List Bytes
all_seconds [] = []
all_seconds ((a, b) ∷ l) = b ∷ all_seconds l

length-all_firsts : (l : Pairs) → length (all_firsts l) ≡ length l
unfolding all_firsts
length-all_firsts [] = refl
length-all_firsts ((a, b) ∷ l) = ap suc (length-all_firsts l)

length-all_seconds : (l : Pairs) → length (all_seconds l) ≡ length l
unfolding all_seconds
length-all_seconds [] = refl
length-all_seconds ((a, b) ∷ l) = ap suc (length-all_seconds l)

wider :
    (u : Bytes) (us l : List Bytes) → all (contains us) l ≡ true → all (contains (u ∷ us)) l ≡ true
wider u us [] h = refl
wider u us (x ∷ l) h = ground (arith, wider u us l)

seconds_of-inside : (l : Pairs) (k : Bytes) → all (contains (all_seconds l)) (seconds_of l k) ≡ true
unfolding seconds_of all_seconds
seconds_of-inside [] k = refl
seconds_of-inside ((a, b) ∷ l) k =
    ground (arith, wider b (all_seconds l) (seconds_of l k) (seconds_of-inside l k), beq_refl b)

firsts_of-inside : (l : Pairs) (k : Bytes) → all (contains (all_firsts l)) (firsts_of l k) ≡ true
unfolding firsts_of all_firsts
firsts_of-inside [] k = refl
firsts_of-inside ((a, b) ∷ l) k =
    ground (arith, wider a (all_firsts l) (firsts_of l k) (firsts_of-inside l k), beq_refl a)

-- The queries down and up end, with exactly what the walks reach.
pub below-exact :
    (s : Groups) (rows : List Bytes) (y : Bytes)
    → (In (closure (included_by s) (rounds s rows) rows) y)
      ↔ ((x : Bytes) × (In rows x) × Reach (included_by s) x y)
below-exact s rows y =
    closure-exact (included_by s) (all_seconds (keys s.includes)) (rounds s rows) rows
      (seconds_of-inside (keys s.includes)) (omega (arith, length-all_seconds (keys s.includes))) y

pub above-exact :
    (s : Groups) (rows : List Bytes) (y : Bytes)
    → (In (closure (including s) (rounds s rows) rows) y)
      ↔ ((x : Bytes) × (In rows x) × Reach (including s) x y)
above-exact s rows y =
    closure-exact (including s) (all_firsts (keys s.includes)) (rounds s rows) rows
      (firsts_of-inside (keys s.includes)) (omega (arith, length-all_firsts (keys s.includes))) y

pub Reach-before :
    (next : Bytes → List Bytes) (x y z : Bytes) → In (next x) y → Reach next y z → Reach next x z
Reach-before next x y _ e Reach.here = Reach.step Reach.here e
Reach-before next x y z e (Reach.step r f) = Reach.step (Reach-before next x y _ e r) f

module _ (s : Groups) where
  pub up : (x y : Bytes) → Reach (included_by s) x y → Reach (including s) y x
  up x _ Reach.here = Reach.here
  up x z (Reach.step {y = y} r e) =
      Reach-before (including s) z y x
        (ground (
          arith,
          contains-seconds_of (keys s.includes) y z,
          contains-firsts_of (keys s.includes) z y,
        ))
        (up x y r)

  pub down : (x y : Bytes) → Reach (including s) x y → Reach (included_by s) y x
  down x _ Reach.here = Reach.here
  down x z (Reach.step {y = y} r e) =
      Reach-before (included_by s) z y x
        (ground (
          arith,
          contains-seconds_of (keys s.includes) z y,
          contains-firsts_of (keys s.includes) y z,
        ))
        (down x y r)

  -- An address is in a group exactly when it is a member of a group that the group reaches along
  -- includes.
  pub groups_for_email_iff :
      (email name : Bytes)
      → (In (groups_for_email s email) name) ↔ (
          (m : Bytes) × (contains (keys s.members) (m, email) ≡ true)
          × Reach (included_by s) name m)
  unfolding groups_for_email
  groups_for_email_iff email name =
      let direct = firsts_of (keys s.members) email in
      let up_set = closure (including s) (rounds s direct) direct in
      (
        λ h.
            let (m, d, r) =
              (above-exact s direct name).0 (ground (arith, contains-order_by up_set name)) in
            (m, ground (arith, contains-firsts_of (keys s.members) email m), down m name r),
        λ (m, d, r).
            let found : In up_set name =
              (above-exact s direct name).1
                (m, ground (arith, contains-firsts_of (keys s.members) email m), up name m r) in
            ground (arith, contains-order_by up_set name),
      )

members_of_any_iff :
    (l : Pairs) (names : List Bytes) (e : Bytes)
    → (In (members_of_any l names) e) ↔ ((m : Bytes) × (contains l (m, e) ≡ true) × In names m)
unfolding members_of_any
members_of_any_iff [] names e = (λ h. absurd (ground arith), λ (m, h, n). absurd (ground arith))
members_of_any_iff ((g, a) ∷ l) names e = (
  λ h. elim (Bool-cases (contains names g && (a == e))) [
    | inl q ↦ (g, ground (arith, beq_refl g), ground arith)
    | inr q ↦
        let (m, c, n) = (members_of_any_iff l names e).0 (ground arith) in (m, ground arith, n)
  ],
  λ (m, h, n). elim (Bool-cases (g == m && a == e)) [
    | inl q ↦
        let same : g ≡ m = (bytes_beq_iff g m).0 (ground arith) in
        ground (arith, ap (contains names) same)
    | inr q ↦
        let rest : In (members_of_any l names) e =
          (members_of_any_iff l names e).1 (m, ground arith, n) in
        ground arith
  ],
)

same_bool : (a b : Bool) → (a ≡ true → b ≡ true) → (b ≡ true → a ≡ true) → a ≡ b
same_bool true b f g = sym (f refl)
same_bool false true f g = g refl
same_bool false false f g = refl

resolved_iff :
    (s : Groups) (name email : Bytes) (members : List Bytes)
    → group_members_resolved s name ≡ some members
    → (In members email)
      ↔ ((m : Bytes) × (contains (keys s.members) (m, email) ≡ true) × Reach (included_by s) name m)
unfolding group_members_resolved
resolved_iff s name email members h =
    let names = closure (included_by s) (rounds s (name ∷ [])) (name ∷ []) in
    let all_members = members_of_any (keys s.members) names in
    let same : contains members email ≡ contains all_members email = ground (
      arith,
      contains-order_by (distinct all_members) email,
      contains-distinct all_members email,
    ) in
    let (to, from) = members_of_any_iff (keys s.members) names email in
    (
      λ m.
          let (g, c, n) = to (sym same ∙ m) in
          let (x, x_in, r) = (below-exact s (name ∷ []) g).0 n in
          let e : name ≡ x = ground (arith, bytes_beq_iff name x) in (g, c, rw e r),
      λ (g, c, r).
          same
          ∙ from (g, c, (below-exact s (name ∷ []) g).1 (name, ground (arith, beq_refl name), r)),
    )

-- The members of a group that exists are exactly the addresses among whose groups it is.
pub resolved_inverse :
    (s : Groups) (name email : Bytes) (members : List Bytes)
    → group_members_resolved s name ≡ some members
    → contains members email ≡ contains (groups_for_email s email) name
resolved_inverse s name email members h =
    let (to, from) = resolved_iff s name email members h in
    let (up_to, up_from) = groups_for_email_iff s email name in
    same_bool (contains members email) (contains (groups_for_email s email) name)
      (λ m. up_from (to m)) (λ m. from (up_to m))
