-- ===== src/Server/Audit/Sources.antt =====
-- Where the rows of the access log come from.
use vps_scaffold_auth.Common.{
  ℕ, ◌/◌, ◌≡◌, inl, inr, Bool, true, false, ◌&&◌, ◌||◌, List, [], ◌∷◌, arith, nat_beq, Bool-cases,
  ◌==◌, nat_eq, bytes_eq, pair_eq, any, contains,
}
use vps_scaffold_auth.Server.Verify.{Visit}
use vps_scaffold_auth.Server.Audit.{
  HostSplitter, site_of, is_site, Access, AccessAudit, at_hour, access_of, mark_visit, drop_one,
  write_row, lose_row, unmark_visit,
}
use vps_scaffold_auth.Server.Audit.Visits.{
  Event, visited, wrote, failed, unmarked, event_step, after_all, started_audit, covered,
  contains-record_app_access, contains_same,
}

-- a visit to a site, with the row
abbrev pub sights : HostSplitter → Access → Event → Bool
sights split_port r (visited v now) =
    is_site (site_of split_port v.host) && access_of split_port v now == r
sights split_port r _ = false

drop_one-le :
    (x r : Access) (xs : List Access) → contains (drop_one x xs) r ≡ true → contains xs r ≡ true
unfolding drop_one
drop_one-le x r [] h = h
drop_one-le x r (y ∷ ys) h = ground (arith, drop_one-le x r ys)

mark-from :
    (split_port : HostSplitter) (a : AccessAudit) (v : Visit) (now : ℕ) (r : Access)
    → covered (mark_visit split_port a v now) r ≡ true
    → (covered a r || sights split_port r (visited v now)) ≡ true
unfolding covered mark_visit at_hour
mark-from split_port a v now r h = elim (Bool-cases (nat_beq (now / 3600) a.hour)) [
  | inl q ↦ ground (arith, q)
  | inr q ↦ ground (arith, q)
]

write-from :
    (a : AccessAudit) (x r : Access) → covered (write_row a x) r ≡ true → covered a r ≡ true
unfolding covered write_row
write-from a x r h = elim (Bool-cases (contains a.writing x)) [
  | inr q ↦ rw (q, write_row) at h
  | inl q ↦ ground (
    arith,
    q,
    rw (q, write_row) at h,
    contains-record_app_access a.app_access x r,
    contains_same a.writing x r,
    drop_one-le x r a.writing,
  )
]

lose-from : (a : AccessAudit) (x r : Access) → covered (lose_row a x) r ≡ true → covered a r ≡ true
unfolding covered lose_row
lose-from a x r h = elim (Bool-cases (contains a.writing x)) [
  | inr q ↦ rw (q, lose_row) at h
  | inl q ↦
      ground
        (arith, q, rw (q, lose_row) at h, contains_same a.writing x r, drop_one-le x r a.writing)
]

unmark-from :
    (a : AccessAudit) (x r : Access) → covered (unmark_visit a x) r ≡ true → covered a r ≡ true
unfolding covered unmark_visit
unmark-from a ((email, host), (kind, bucket)) r h =
    elim (Bool-cases (contains a.lost ((email, host), (kind, bucket)))) [
      | inr q ↦ rw (q, unmark_visit) at h
      | inl q ↦ ground (
        arith,
        q,
        rw (q, unmark_visit) at h,
        drop_one-le ((email, host), (kind, bucket)) r a.lost,
      )
    ]

step-from :
    (split_port : HostSplitter) (a : AccessAudit) (x : Event) (r : Access)
    → covered (event_step split_port a x) r ≡ true
    → (covered a r || sights split_port r x) ≡ true
step-from split_port a (visited v now) r h = mark-from split_port a v now r h
step-from split_port a (wrote x) r h = ground (arith, write-from a x r h)
step-from split_port a (failed x) r h = ground (arith, lose-from a x r h)
step-from split_port a (unmarked x) r h = ground (arith, unmark-from a x r h)

all-from :
    (split_port : HostSplitter) (a : AccessAudit) (xs : List Event) (r : Access)
    → covered (after_all split_port a xs) r ≡ true
    → (covered a r || any (sights split_port r) xs) ≡ true
unfolding after_all
all-from split_port a [] r h = ground arith
all-from split_port a (x ∷ xs) r h =
    ground
      (arith, all-from split_port (event_step split_port a x) xs r h, step-from split_port a x r)

-- However requests and writes have interleaved, the access log holds no row but those that it held at
-- the start and those of visits to sites, each with the address, the site, the kind and the hour of its
-- visit.
pub logged-visited :
    (split_port : HostSplitter) (rows : List Access) (xs : List Event) (r : Access)
    → contains (after_all split_port (started_audit rows) xs).app_access r ≡ true
    → (contains rows r || any (sights split_port r) xs) ≡ true
unfolding covered
logged-visited split_port rows xs r h =
    ground (arith, all-from split_port (started_audit rows) xs r (ground arith))
