-- ===== src/Server/Feeds/Exact.antt =====
-- The members that a sync leaves.
use vps_scaffold_auth.Common.{
  ℕ, ◌/◌, ◌≡◌, refl, ap, ◌∙◌, inl, inr, Bool, true, false, not, ◌&&◌, ◌||◌, some, List, [], ◌∷◌,
  arith, ltb, if◌then◌else◌, Bool-cases, Option-cases, is_some, ◌==◌, Bytes, bytes_beq_iff, nat_eq,
  bytes_eq, pair_eq, beq_refl, length, is_nil, keep, contains, contains-keep,
}
use vps_scaffold_auth.Common.Table.{lookup, lookup-insert}
use vps_scaffold_auth.Server.Feeds.{
  FeedConfig, Fetched, unreachable, unusable, listed, feed_max_addresses, usable_addresses,
  diff_members, feed_set_hash, FeedWorld, group_feed,
}
use vps_scaffold_auth.Server.Feeds.Sync.{
  SyncReply, nothing_held, change_replaced, will_retry, recorded, finish, update_members,
  with_members, carry_out, with_group, sync_members, use_fetched, sync_feed_attempt,
}
use vps_scaffold_auth.Server.Feeds.Decide.{
  same_status, FeedChange, added, removed, Decision, hold, apply_it, decide,
}
use vps_scaffold_auth.Store.Groups.{Groups, create_group, exists_group, list_group_members}
use vps_scaffold_auth.Store.Groups.Resolve.{contains-order_by}
use vps_scaffold_auth.Store.Feeds.{sync_held, sync_ok, SyncState, sync_state}
use vps_scaffold_auth.Store.Feeds.Applied.{has_member, contains-list_group_members, applied}

-- a sync that is recorded as done
abbrev pub synced : SyncReply → Bool
synced (recorded st) = same_status st.status sync_ok
synced _ = false

abbrev pub fetched_set : FeedConfig → Fetched → List Bytes
fetched_set c (listed l) = usable_addresses c l
fetched_set c _ = []

-- What is left of a group's members, when they are to become a set if the sync is done.
abbrev Leaves : FeedWorld → Bytes → List Bytes → FeedWorld × SyncReply → Bytes → Bytes → Type 0
Leaves w group emails r g e =
    has_member r.0.groups g e
    ≡ (if synced r.1 && group == g then contains emails e else has_member w.groups g e)

diff_members_lem :
    (current emails : List Bytes) (e : Bytes)
    → (not (contains (diff_members current emails).1 e)
        && (contains (diff_members current emails).0 e || contains current e))
      ≡ contains emails e
unfolding diff_members
diff_members_lem current emails e = ground (
  arith,
  contains-keep (λ x. not (contains current x)) emails e,
  contains-keep (λ x. not (contains emails x)) current e,
  contains-order_by (keep (λ x. not (contains emails x)) current) e,
)

nil_contains : (xs : List Bytes) (e : Bytes) → is_nil xs ≡ true → contains xs e ≡ false
nil_contains [] e h = refl
nil_contains (x ∷ xs) e h = ground arith

module _ (w : FeedWorld) (group actor : Bytes) (emails : List Bytes) (rotating : Bool)
    (prev : SyncState) (now : ℕ) where
  abbrev pub change : FeedChange
  change = record {
    current = list_group_members w.groups group;
    emails = emails;
    rotating = rotating;
  }

  pub updated :
      (who : Bytes) (accept auto : Bool) (g e : Bytes)
      → exists_group w.groups group ≡ true
      → (t : FeedWorld) × (update_members w group who change accept auto now ≡ some t)
        × (has_member t.groups g e
            ≡ (if group == g then contains emails e else has_member w.groups g e))
  unfolding update_members
  updated who accept auto g e h =
      elim (Bool-cases (is_nil (added change) && is_nil (removed change))) [
        | inl q ↦ (
          w,
          ground arith,
          ground (
            arith,
            diff_members_lem (list_group_members w.groups group) emails e,
            nil_contains (added change) e,
            nil_contains (removed change) e,
            contains-list_group_members w.groups group e,
            bytes_beq_iff group g,
          ),
        )
        | inr q ↦
            let (t, done, held) =
              applied w.groups group (added change) (removed change) (now / 1000000000) h in
            (
              with_members w group who change accept auto now t,
              rw (q, done, update_members) refl,
              ground (
                arith,
                held.held_now g e,
                diff_members_lem (list_group_members w.groups group) emails e,
                contains-list_group_members w.groups group e,
                bytes_beq_iff group g,
              ),
            )
      ]

  carried_out :
      (accept : Bool) (hash : Bytes) (d : Decision) (g e : Bytes)
      → exists_group w.groups group ≡ true
      → Leaves w group emails (carry_out w group actor prev change accept hash now d) g e
  unfolding carry_out finish
  carried_out accept hash (hold since) g e h = refl
  carried_out accept hash (apply_it auto) g e h =
      let (t, done, held) = updated (if auto then group_feed else actor) accept auto g e h in
      rw (done, carry_out) held

exists-create_group :
    (s : Groups) (name label : Bytes) (now : ℕ)
    → exists_group (create_group s name label now) name ≡ true
unfolding create_group exists_group
exists-create_group s name label now =
    ap is_some (lookup-insert name name _ s.groups) ∙ rw (beq_refl name) refl

pub with_group_lem :
    (w : FeedWorld) (group : Bytes) (now : ℕ)
    → (exists_group (with_group w group now).groups group ≡ true)
      × ((with_group w group now).groups.members ≡ w.groups.members)
unfolding with_group exists_group create_group
with_group_lem w group now = elim (Bool-cases (is_some (lookup group w.groups.groups))) [
  | inl q ↦ (ground arith, rw (q, with_group) refl)
  | inr q ↦ (
    rw (q, with_group) (exists-create_group w.groups group [] (now / 1000000000)),
    rw (q, with_group) refl,
  )
]

if_leaves :
    (b : Bool) (x y : FeedWorld × SyncReply) (emails : List Bytes) (w : FeedWorld)
    (group g e : Bytes)
    → Leaves w group emails x g e
    → Leaves w group emails y g e
    → Leaves w group emails (if b then x else y) g e
if_leaves true x y emails w group g e h k = h
if_leaves false x y emails w group g e h k = k

members_left :
    (c : FeedConfig) (w : FeedWorld) (group actor : Bytes) (prev : SyncState)
    (rotating accept : Bool)
    → (emails : List Bytes) (now : ℕ) (g e : Bytes)
    → Leaves w group emails (sync_members c w group actor prev rotating accept emails now) g e
unfolding sync_members
members_left c w group actor prev rotating accept emails now g e =
    let t = with_group w group now in
    let (exists, same) = with_group_lem w group now in
    let x : FeedChange = record {
      current = list_group_members t.groups group;
      emails = emails;
      rotating = rotating;
    } in
    let hash = feed_set_hash c emails in
    let r = carry_out t group actor prev x accept hash now (decide c prev x accept hash now) in
    carried_out t group actor emails rotating prev now accept hash (decide c prev x accept hash now)
      g e exists
    ∙ ap (λ m. if synced r.1 && group == g then contains emails e else is_some (lookup (g, e) m))
        same

used :
    (c : FeedConfig) (w : FeedWorld) (group actor : Bytes) (prev : SyncState)
    (rotating accept may_retry : Bool)
    → (fetched : Fetched) (now : ℕ) (g e : Bytes)
    → Leaves w group
        (fetched_set c fetched)
        (use_fetched c w group actor prev rotating accept may_retry fetched now)
        g
        e
unfolding use_fetched finish sync_members
used c w group actor prev rotating accept may_retry unreachable now g e =
    if_leaves may_retry (w, will_retry) _ [] w group g e refl refl
used c w group actor prev rotating accept may_retry unusable now g e = refl
used c w group actor prev rotating accept may_retry (listed l) now g e =
    let emails = usable_addresses c l in
    if_leaves (ltb feed_max_addresses (length l)) _ _ emails w group g e refl (
      if_leaves (is_nil emails) _ _ emails w group g e refl
        (members_left c w group actor prev rotating accept emails now g e))

-- After a sync, the members of the group are the fetched set if the sync is recorded as done, and
-- are what they were otherwise, whatever the error or the reason to hold the change; no other
-- group's members change.
pub sync_exact :
    (c : FeedConfig) (w : FeedWorld) (group actor accept_hash : Bytes) (may_retry : Bool)
    (fetched : Fetched) (now : ℕ) (g e : Bytes)
    → has_member (sync_feed_attempt c w group actor accept_hash may_retry fetched now).0.groups g e
      ≡ (if synced (sync_feed_attempt c w group actor accept_hash may_retry fetched now).1
            && group == g
          then contains (fetched_set c fetched) e
          else has_member w.groups g e)
unfolding sync_feed_attempt
sync_exact c w group actor accept_hash may_retry fetched now g e =
    elim (Option-cases (c.feeds group)) [
      | inl q ↦ rw (q, sync_feed_attempt) refl
      | inr (rotating, q) ↦
          let prev = sync_state w.states group in
          let accept = not (is_nil accept_hash) in
          rw (q, sync_feed_attempt)
            (if_leaves (accept && not (same_status prev.status sync_held)) (w, nothing_held) _
              (fetched_set c fetched) w group g e refl
              (if_leaves (accept && not (accept_hash == prev.pending_hash)) (w, change_replaced) _
                (fetched_set c fetched) w group g e refl
                (used c w group actor prev rotating accept may_retry fetched now g e)))
    ]
