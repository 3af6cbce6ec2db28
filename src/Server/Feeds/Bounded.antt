-- ===== src/Server/Feeds/Bounded.antt =====
-- Which changes of a group's members are made without an administrator.
use vps_scaffold_auth.Common.{
  ℕ, ◌+◌, ◌/◌, ◌≤◌, ◌<◌, max, ◌≡◌, refl, sym, ap, ◌⊎◌, inl, inr, Bool, true, false, ◌&&◌, some, [],
  arith, ltb, Bool-cases, Option-cases, ◌==◌, Bytes, bytes_beq_iff, nat_eq, bytes_eq, pair_eq,
  length, is_nil,
}
use vps_scaffold_auth.Server.Feeds.{
  FeedConfig, Fetched, unreachable, unusable, listed, feed_max_addresses, usable_addresses,
  feed_hold_adds, feed_hold_removes, feed_hold_drift, feed_set_hash, FeedWorld,
}
use vps_scaffold_auth.Server.Feeds.Sync.{
  finish, carry_out, with_group, sync_members, use_fetched, sync_feed_attempt,
}
use vps_scaffold_auth.Server.Feeds.Decide.{
  same_status, FeedChange, added, removed, drift, to_check, too_large, held_from, wait_or_apply,
  Decision, hold, apply_it, decide,
}
use vps_scaffold_auth.Server.Feeds.Exact.{synced, fetched_set, with_group_lem}
use vps_scaffold_auth.Store.Groups.{list_group_members}
use vps_scaffold_auth.Store.Feeds.{sync_held, SyncState, sync_state}

-- A small change: by the group's size, and by how far it goes from the set last accepted.
pub record IsSmall (prev : SyncState) (x : FeedChange) : Type 0 where
  pub few_added : length (added x) ≤ max 5 (length x.current / 4)
  pub few_removed : length (removed x) ≤ max 2 (length x.current / 4)
  pub little_drift : drift prev.accepted x.emails ≤ max 3 (length prev.accepted / 4)

-- A change that has been held, the same for the whole wait, that no administrator has kept out and
-- that is not too large.
pub record HasWaited (c : FeedConfig) (prev : SyncState) (x : FeedChange) (hash : Bytes) (now : ℕ)
    : Type 0 where
  pub held_time : ℕ
  pub wait_set : 0 < c.auto_apply_after
  pub was_held : same_status prev.status sync_held ≡ true
  pub same_change : prev.pending_hash ≡ hash
  pub held_at : prev.held_since ≡ some held_time
  pub waited : held_time + c.auto_apply_after ≤ now
  pub not_kept : (prev.kept_hash == hash) ≡ false
  pub moderate : too_large prev x ≡ false

abbrev pub is_apply : Decision → Bool
is_apply (apply_it _) = true
is_apply (hold _) = false

waited_lem :
    (c : FeedConfig) (prev : SyncState) (x : FeedChange) (hash : Bytes) (now : ℕ)
    → is_apply (wait_or_apply c prev x hash now) ≡ true
    → HasWaited c prev x hash now
unfolding wait_or_apply held_from
waited_lem c prev x hash now h = elim (Option-cases prev.held_since) [
  | inl e ↦ absurd (ground arith)
  | inr (t, e) ↦ record {
    held_time = t;
    wait_set = ground arith;
    was_held = ground arith;
    same_change = ground (arith, bytes_beq_iff prev.pending_hash hash);
    held_at = e;
    waited = ground arith;
    not_kept = ground arith;
    moderate = ground arith;
  }
]

-- Nothing to change, a small change, or one that has waited.
abbrev pub Unattended : FeedConfig → SyncState → FeedChange → Bytes → ℕ → Type 0
Unattended c prev x hash now =
    (is_nil (added x) && is_nil (removed x) ≡ true) ⊎ IsSmall prev x ⊎ HasWaited c prev x hash now

decide-Unattended :
    (c : FeedConfig) (prev : SyncState) (x : FeedChange) (hash : Bytes) (now : ℕ)
    → is_apply (decide c prev x false hash now) ≡ true
    → Unattended c prev x hash now
unfolding decide to_check feed_hold_adds feed_hold_removes feed_hold_drift
decide-Unattended c prev x hash now h = elim (Bool-cases (is_nil (added x) && is_nil (removed x))) [
  | inl q ↦ inl q
  | inr q ↦ elim (Bool-cases (to_check prev x)) [
    | inl k ↦ inr (inr (waited_lem c prev x hash now (rw (q, k, decide) at h)))
    | inr k ↦ inr (
        inl (record {
          few_added = ground arith;
          few_removed = ground arith;
          little_drift = ground arith;
        }))
  ]
]

synced_applies :
    (w : FeedWorld) (group actor : Bytes) (prev : SyncState) (x : FeedChange) (accept : Bool)
    (hash : Bytes) (now : ℕ) (d : Decision)
    → synced (carry_out w group actor prev x accept hash now d).1 ≡ true
    → is_apply d ≡ true
unfolding carry_out finish
synced_applies w group actor prev x accept hash now (hold since) h = h
synced_applies w group actor prev x accept hash now (apply_it auto) h = refl

list-with_group :
    (w : FeedWorld) (group : Bytes) (now : ℕ)
    → list_group_members (with_group w group now).groups group ≡ list_group_members w.groups group
unfolding list_group_members
list-with_group w group now =
    ap (λ m. list_group_members (record w.groups { members = m }) group)
      (with_group_lem w group now).1

-- A sync that no administrator accepted, when it is recorded as done, had nothing to change, or made
-- a small change, or made one that has waited.
pub sync-Unattended :
    (c : FeedConfig) (w : FeedWorld) (group actor : Bytes) (rotating may_retry : Bool)
    (fetched : Fetched) (now : ℕ)
    → c.feeds group ≡ some rotating
    → synced (sync_feed_attempt c w group actor [] may_retry fetched now).1 ≡ true
    → Unattended c
        (sync_state w.states group)
        (record {
          current = list_group_members w.groups group;
          emails = fetched_set c fetched;
          rotating = rotating;
        })
        (feed_set_hash c (fetched_set c fetched))
        now
unfolding sync_feed_attempt use_fetched sync_members finish
sync-Unattended c w group actor rotating may_retry unreachable now q h = absurd (ground arith)
sync-Unattended c w group actor rotating may_retry unusable now q h = absurd (ground arith)
sync-Unattended c w group actor rotating may_retry (listed l) now q h =
    elim (Bool-cases (ltb feed_max_addresses (length l))) [
      | inl a ↦ absurd (ground arith)
      | inr a ↦ elim (Bool-cases (is_nil (usable_addresses c l))) [
        | inl b ↦ absurd (ground arith)
        | inr b ↦ rw (sym (list-with_group w group now)) (
            decide-Unattended c (sync_state w.states group) _
              (feed_set_hash c (usable_addresses c l)) now
              (synced_applies _ group actor (sync_state w.states group) _ false _ now _
                (rw (q, a, b, sync_feed_attempt, use_fetched, sync_members) at h)))
      ]
    ]
