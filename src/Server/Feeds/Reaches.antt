-- ===== src/Server/Feeds/Reaches.antt =====
-- What a sync does to the groups that people's sessions are built from.
use vps_scaffold_auth.Common.{
  ℕ, ◌≡◌, sym, ◌∙◌, ◌↔◌, Bool, true, ◌&&◌, if◌then◌else◌, ◌==◌, Bytes, nat_eq, bytes_eq, pair_eq,
  contains,
}
use vps_scaffold_auth.Server.Feeds.{FeedConfig, Fetched, FeedWorld}
use vps_scaffold_auth.Server.Feeds.Sync.{sync_feed_attempt}
use vps_scaffold_auth.Server.Feeds.Exact.{synced, fetched_set, sync_exact}
use vps_scaffold_auth.Store.Walk.Reach.{In}
use vps_scaffold_auth.Store.Walk.Exact.{Reach}
use vps_scaffold_auth.Store.Groups.{keys, included_by, groups_for_email}
use vps_scaffold_auth.Store.Groups.Resolve.{groups_for_email_iff}
use vps_scaffold_auth.Store.Feeds.Applied.{has_member, contains-keys}

-- After a sync, an address has a group exactly when the group reaches, along includes, one that the
-- address is in. If the sync is recorded as done, these are the synced group, when the address is among
-- the fetched, and the other groups that it was a member of before; if not, all those that it was a
-- member of before.
pub synced_groups :
    (c : FeedConfig) (w : FeedWorld) (group actor accept_hash : Bytes) (may_retry : Bool)
    (fetched : Fetched) (now : ℕ) (email name : Bytes)
    → let r = sync_feed_attempt c w group actor accept_hash may_retry fetched now in
      (In (groups_for_email r.0.groups email) name) ↔ (
        (m : Bytes) × ((if synced r.1 && group == m
            then contains (fetched_set c fetched) email
            else has_member w.groups m email)
          ≡ true)
        × Reach (included_by r.0.groups) name m)
synced_groups c w group actor accept_hash may_retry fetched now email name =
    let r = sync_feed_attempt c w group actor accept_hash may_retry fetched now in
    let (to, from) = groups_for_email_iff r.0.groups email name in
    let same : (m : Bytes)
        → contains (keys r.0.groups.members) (m, email) ≡ (
            if synced r.1 && group == m
            then contains (fetched_set c fetched) email
            else has_member w.groups m email) =
      λ m.
        contains-keys r.0.groups.members (m, email)
        ∙ sync_exact c w group actor accept_hash may_retry fetched now m email in
    (
      λ h. let (m, k, reach) = to h in (m, sym (same m) ∙ k, reach),
      λ (m, k, reach). from (m, same m ∙ k, reach),
    )
