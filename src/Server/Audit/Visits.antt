-- ===== src/Server/Audit/Visits.antt =====
-- That no visit is hidden from the access log, whatever requests and writes interleave.
use vps_scaffold_auth.Common.{
  ℕ, ◌/◌, ◌≡◌, refl, sym, ap, inl, inr, Bool, true, false, not, ◌&&◌, ◌||◌, List, [], ◌∷◌, ◌++◌,
  arith, nat_beq, nat_beq_iff, Bool-cases, Eq, ◌==◌, Bytes, bytes_beq_iff, nat_eq, bytes_eq,
  pair_eq, beq_refl, all, contains, contains-keep,
}
use mathlib.Core.Path.{subst}
use vps_scaffold_auth.Server.Verify.{Visit}
use vps_scaffold_auth.Server.Audit.{
  HostSplitter, site_of, is_site, Access, record_app_access, AccessAudit, seen_key, at_hour,
  access_of, mark_visit, drop_one, write_row, lose_row, unmark_visit,
}
use vps_scaffold_auth.Common.Text.Splitting.{free_of}

-- A visit and when it was made, or what becomes of the write of a row.
pub data Event : Type 0 where
  visited : Visit → ℕ → Event
  wrote : Access → Event
  failed : Access → Event
  unmarked : Access → Event

abbrev pub event_step : HostSplitter → AccessAudit → Event → AccessAudit
event_step split_port a (visited v now) = mark_visit split_port a v now
event_step split_port a (wrote r) = write_row a r
event_step split_port a (failed r) = lose_row a r
event_step split_port a (unmarked r) = unmark_visit a r

unfoldable pub after_all : HostSplitter → AccessAudit → List Event → AccessAudit
after_all split_port a [] = a
after_all split_port a (x ∷ xs) = after_all split_port (event_step split_port a x) xs

-- an address and a kind without a zero byte
abbrev pub plain_visit : Visit → Bool
plain_visit v = free_of 0 v.email && free_of 0 v.kind

abbrev pub plain_event : Event → Bool
plain_event (visited v now) = plain_visit v
plain_event _ = true

-- The row is in the log, or its write is under way or lost and about to be un-marked.
unfoldable pub covered : AccessAudit → Access → Bool
covered a r = contains a.app_access r || (contains a.writing r || contains a.lost r)

append_apart :
    (s t x y : Bytes)
    → free_of 0 s ≡ true
    → free_of 0 t ≡ true
    → s ++ 0 ∷ x ≡ t ++ 0 ∷ y
    → (s ≡ t) × (x ≡ y)
append_apart [] [] x y h k e = ground arith
append_apart [] (d ∷ t) x y h k e = ground arith
append_apart (c ∷ s) [] x y h k e = ground arith
append_apart (c ∷ s) (d ∷ t) x y h k e = ground (arith, append_apart s t x y)

key_apart :
    (e k h e' k' h' : Bytes)
    → free_of 0 e && free_of 0 k ≡ true
    → free_of 0 e' && free_of 0 k' ≡ true
    → seen_key e k h ≡ seen_key e' k' h'
    → (e ≡ e') × (k ≡ k') × (h ≡ h')
key_apart e k h e' k' h' p q same =
    let (a, rest) =
      append_apart e e' (k ++ 0 ∷ h) (k' ++ 0 ∷ h') (ground arith) (ground arith) same in
    let (b, c) = append_apart k k' h h' (ground arith) (ground arith) rest in (a, b, c)

pub contains_same {ℓ} :
    {A : Type ℓ} ⦃e : Eq A⦄ (xs : List A) (a r : A)
    → (a == r) ≡ true
    → contains xs a ≡ contains xs r
contains_same ⦃e⦄ xs a r h = ap (contains xs) ((e.test_iff a r).0 h)

pub contains-record_app_access :
    (rows : List Access) (a r : Access)
    → contains (record_app_access rows a) r ≡ (contains rows r || a == r)
unfolding record_app_access
contains-record_app_access rows a r = elim (Bool-cases (contains rows a)) [
  | inl q ↦ ground (arith, contains_same rows a r)
  | inr q ↦ ground arith
]

found_same {ℓ} : {A : Type ℓ} ⦃e : Eq A⦄ (a r : A) → (a == r) ≡ true → a ≡ r
found_same ⦃e⦄ a r = (e.test_iff a r).0

beq_same {ℓ} : {A : Type ℓ} ⦃e : Eq A⦄ (y x r : A) → (y == x) ≡ true → (y == r) ≡ (x == r)
beq_same ⦃e⦄ y x r q = ap (λ z. z == r) ((e.test_iff y x).0 q)

contains-drop_one :
    (x r : Access) (xs : List Access)
    → (x == r) ≡ false
    → contains (drop_one x xs) r ≡ contains xs r
unfolding drop_one
contains-drop_one x r [] h = refl
contains-drop_one x r (y ∷ ys) h = elim (Bool-cases (y == x)) [
  | inl q ↦ ground (arith, q, h, beq_same y x r q)
  | inr q ↦ ground (arith, q, contains-drop_one x r ys h)
]

at_hour_lem :
    (a : AccessAudit) (bucket : ℕ)
    → ((at_hour a bucket).hour ≡ bucket) × ((at_hour a bucket).app_access ≡ a.app_access)
unfolding at_hour
at_hour_lem a bucket = elim (Bool-cases (nat_beq bucket a.hour)) [
  | inl q ↦ rw (q, at_hour) (sym ((nat_beq_iff bucket a.hour).0 q), refl)
  | inr q ↦ rw (q, at_hour) (refl, refl)
]

-- What has been seen in the hour is covered.
record IsCovered (a : AccessAudit) : Type 0 where
  seen_covered :
      (e k h : Bytes)
      → free_of 0 e && free_of 0 k ≡ true
      → contains a.seen (seen_key e k h) ≡ true
      → covered a ((e, h), (k, a.hour)) ≡ true

write_same :
    (a : AccessAudit) (r : Access)
    → ((write_row a r).seen ≡ a.seen) × ((write_row a r).hour ≡ a.hour)
unfolding write_row
write_same a r = elim (Bool-cases (contains a.writing r)) [
  | inl q ↦ rw (q, write_row) (refl, refl)
  | inr q ↦ rw (q, write_row) (refl, refl)
]

lose_same :
    (a : AccessAudit) (r : Access) → ((lose_row a r).seen ≡ a.seen) × ((lose_row a r).hour ≡ a.hour)
unfolding lose_row
lose_same a r = elim (Bool-cases (contains a.writing r)) [
  | inl q ↦ rw (q, lose_row) (refl, refl)
  | inr q ↦ rw (q, lose_row) (refl, refl)
]

-- Two rows that are the same have the same key and hour.
row_same :
    (r x : Access)
    → (r == x) ≡ true
    → ((seen_key x.0.0 x.1.0 x.0.1 == seen_key r.0.0 r.1.0 r.0.1) ≡ true)
      × (nat_beq r.1.1 x.1.1 ≡ true)
row_same r x q =
    let e : r ≡ x = found_same r x q in
    subst
      (λ (y : Access).
        ((seen_key y.0.0 y.1.0 y.0.1 == seen_key r.0.0 r.1.0 r.0.1) ≡ true)
        × (nat_beq r.1.1 y.1.1 ≡ true))
      e (beq_refl (seen_key r.0.0 r.1.0 r.0.1), (nat_beq_iff r.1.1 r.1.1).1 refl)

write-covered :
    (a : AccessAudit) (r x : Access) → covered a x ≡ true → covered (write_row a r) x ≡ true
unfolding covered write_row
write-covered a r x h = elim (Bool-cases (contains a.writing r)) [
  | inr q ↦ rw (q, write_row) h
  | inl q ↦ elim (Bool-cases (r == x)) [
    | inl e ↦ rw (q, write_row) (ground (arith, e, contains-record_app_access a.app_access r x))
    | inr e ↦
        rw (q, write_row)
          (ground (
            arith,
            e,
            h,
            contains-record_app_access a.app_access r x,
            contains-drop_one r x a.writing e,
          ))
  ]
]

lose-covered :
    (a : AccessAudit) (r x : Access) → covered a x ≡ true → covered (lose_row a r) x ≡ true
unfolding covered lose_row
lose-covered a r x h = elim (Bool-cases (contains a.writing r)) [
  | inr q ↦ rw (q, lose_row) h
  | inl q ↦ elim (Bool-cases (r == x)) [
    | inl e ↦ rw (q, lose_row) (ground (arith, e))
    | inr e ↦ rw (q, lose_row) (ground (arith, e, h, contains-drop_one r x a.writing e))
  ]
]

write-IsCovered : (a : AccessAudit) (r : Access) → IsCovered a → IsCovered (write_row a r)
write-IsCovered a r old = record {
  seen_covered = λ e k h p m.
      let (same_seen, same_hour) = write_same a r in
      subst (λ n. covered (write_row a r) ((e, h), (k, n)) ≡ true) (sym same_hour)
        (write-covered a r ((e, h), (k, a.hour)) (old.seen_covered e k h p (rw same_seen at m)));
}

lose-IsCovered : (a : AccessAudit) (r : Access) → IsCovered a → IsCovered (lose_row a r)
lose-IsCovered a r old = record {
  seen_covered = λ e k h p m.
      let (same_seen, same_hour) = lose_same a r in
      subst (λ n. covered (lose_row a r) ((e, h), (k, n)) ≡ true) (sym same_hour)
        (lose-covered a r ((e, h), (k, a.hour)) (old.seen_covered e k h p (rw same_seen at m)));
}

unmark-IsCovered : (a : AccessAudit) (r : Access) → IsCovered a → IsCovered (unmark_visit a r)
unfolding covered unmark_visit
unmark-IsCovered a ((email, host), (kind, bucket)) old =
    let r : Access = ((email, host), (kind, bucket)) in
    let key = seen_key email kind host in
    elim (Bool-cases (contains a.lost r)) [
      | inr q ↦ rw (q, unmark_visit) old
      | inl q ↦
          rw (q, unmark_visit)
            (record {
              seen_covered = λ e k h p m.
                  let x : Access = ((e, h), (k, a.hour)) in
                  let still : contains a.seen (seen_key e k h) ≡ true =
                    ground
                      (arith, m, contains-keep (λ y. not (y == key)) a.seen (seen_key e k h)) in
                  elim (Bool-cases (r == x)) [
                    | inr n ↦
                        ground
                          (arith, old.seen_covered e k h p still, contains-drop_one r x a.lost n)
                    | inl n ↦ absurd (
                        ground (
                          arith,
                          m,
                          n,
                          row_same r x n,
                          nat_beq_iff a.hour bucket,
                          nat_beq_iff bucket a.hour,
                          contains-keep (λ y. not (y == key)) a.seen (seen_key e k h),
                          beq_refl key,
                        ))
                  ];
            })
    ]

at_hour-IsCovered : (a : AccessAudit) (bucket : ℕ) → IsCovered a → IsCovered (at_hour a bucket)
unfolding at_hour
at_hour-IsCovered a bucket h = elim (Bool-cases (nat_beq bucket a.hour)) [
  | inl q ↦ rw (q, at_hour) h
  | inr q ↦ rw (q, at_hour) (record { seen_covered = λ e k g p m. absurd (ground arith) })
]

module _ (split_port : HostSplitter) (a : AccessAudit) (v : Visit) (now : ℕ) (old : IsCovered a)
    (plain : plain_visit v ≡ true) where
  abbrev host : Bytes
  host = site_of split_port v.host

  abbrev hourly : AccessAudit
  hourly = at_hour a (now / 3600)

  abbrev key : Bytes
  key = seen_key v.email v.kind host

  abbrev row : Access
  row = access_of split_port v now

  still-IsCovered : IsCovered hourly
  still-IsCovered = at_hour-IsCovered a (now / 3600) old

  begun-IsCovered :
      IsCovered (record hourly { seen = key ∷ hourly.seen; writing = row ∷ hourly.writing })
  unfolding covered
  begun-IsCovered = record {
    seen_covered = λ e k h p m. elim (Bool-cases (key == seen_key e k h)) [
      | inl q ↦
          let (x, y, z) =
            key_apart v.email v.kind host e k h plain p
              ((bytes_beq_iff key (seen_key e k h)).0 q) in
          rw (sym x, sym y, sym z, (at_hour_lem a (now / 3600)).0) (ground (arith, beq_refl row))
      | inr q ↦ ground (arith, still-IsCovered.seen_covered e k h p (ground arith))
    ];
  }

  mark-IsCovered : IsCovered (mark_visit split_port a v now)
  unfolding mark_visit
  mark-IsCovered = elim (Bool-cases (is_site host)) [
    | inr q ↦ rw (q, mark_visit) old
    | inl q ↦ elim (Bool-cases (contains hourly.seen key)) [
      | inl m ↦ rw (q, m, mark_visit) still-IsCovered
      | inr m ↦ rw (q, m, mark_visit) begun-IsCovered
    ]
  ]

  -- a visit that is marked, by its own request or by another
  mark-covered : is_site host ≡ true → covered (mark_visit split_port a v now) row ≡ true
  unfolding mark_visit covered
  mark-covered q = elim (Bool-cases (contains hourly.seen key)) [
    | inl m ↦
        rw (q, m, mark_visit)
          (rw (at_hour_lem a (now / 3600)).0 at
            (still-IsCovered.seen_covered v.email v.kind host plain m))
    | inr m ↦ rw (q, m, mark_visit) (ground (arith, beq_refl row))
  ]

-- the log of a process that has just started
abbrev pub started_audit : List Access → AccessAudit
started_audit rows = record { hour = 0; seen = []; app_access = rows; writing = []; lost = [] }

step-IsCovered :
    (split_port : HostSplitter) (a : AccessAudit) (x : Event)
    → plain_event x ≡ true
    → IsCovered a
    → IsCovered (event_step split_port a x)
step-IsCovered split_port a (visited v now) p h = mark-IsCovered split_port a v now h p
step-IsCovered split_port a (wrote r) p h = write-IsCovered a r h
step-IsCovered split_port a (failed r) p h = lose-IsCovered a r h
step-IsCovered split_port a (unmarked r) p h = unmark-IsCovered a r h

all-IsCovered :
    (split_port : HostSplitter) (a : AccessAudit) (xs : List Event)
    → all plain_event xs ≡ true
    → IsCovered a
    → IsCovered (after_all split_port a xs)
unfolding after_all
all-IsCovered split_port a [] p h = h
all-IsCovered split_port a (x ∷ xs) p h =
    all-IsCovered split_port (event_step split_port a x) xs (ground arith)
      (step-IsCovered split_port a x (ground arith) h)

-- However requests and writes have interleaved, and whichever writes were lost, once a visit to a site has been
-- marked, by its own request or by an earlier one of the hour, its row is in the access log, or a write of it is under
-- way, or one has just been lost and its mark is about to be taken back. The addresses and kinds of
-- the visits have no zero byte.
pub visit_covered :
    (split_port : HostSplitter) (rows : List Access) (xs : List Event) (v : Visit) (now : ℕ)
    → all plain_event xs ≡ true
    → plain_visit v ≡ true
    → is_site (site_of split_port v.host) ≡ true
    → covered
        (mark_visit split_port (after_all split_port (started_audit rows) xs) v now)
        (access_of split_port v now)
      ≡ true
visit_covered split_port rows xs v now p plain site =
    let h =
      all-IsCovered split_port (started_audit rows) xs p
        (record { seen_covered = λ e k g q m. absurd (ground arith) }) in
    mark-covered split_port (after_all split_port (started_audit rows) xs) v now h plain site
