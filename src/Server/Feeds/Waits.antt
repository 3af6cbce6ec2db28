-- ===== src/Server/Feeds/Waits.antt =====
-- A held change whose endpoint goes on returning the same set, over the syncs that follow.
use vps_scaffold_auth.Common.{
  ℕ, ◌+◌, ◌*◌, ◌/◌, ◌≤◌, ◌<◌, ◌≡◌, refl, sym, ◌∙◌, Bool, true, false, ◌&&◌, some, List, [], ◌∷◌,
  arith, ltb, leb, if◌then◌else◌, ◌==◌, Bytes, bytes_beq_iff, nat_eq, bytes_eq, pair_eq, beq_refl,
  length, is_nil, all, contains,
}
use vps_scaffold_auth.Common.Text.{join}
use vps_scaffold_auth.Common.Table.{lookup, lookup-insert}
use vps_scaffold_auth.Server.Feeds.{
  FeedConfig, listed, feed_max_addresses, usable_addresses, feed_set_hash, FeedWorld, group_feed,
}
use vps_scaffold_auth.Server.Feeds.Sync.{
  SyncReply, finish, begun, carry_out, with_group, sync_members, use_fetched, sync_feed_attempt,
}
use vps_scaffold_auth.Server.Feeds.Decide.{
  same_status, FeedChange, added, removed, to_check, too_large, held_from, wait_or_apply, hold,
  apply_it, decide,
}
use vps_scaffold_auth.Server.Feeds.Exact.{synced, sync_exact, updated}
use vps_scaffold_auth.Store.Groups.{exists_group, list_group_members}
use vps_scaffold_auth.Store.Feeds.{
  sync_held, SyncState, SyncRow, old_success, set_group_sync_state, sync_state, unix_or_zero,
  unix_time, split_lines, join_lines, newline,
}
use vps_scaffold_auth.Store.Feeds.Applied.{has_member}
use vps_scaffold_auth.Common.Text.Splitting.{join-split}

join-split_lines : (s : Bytes) → join_lines (split_lines s) ≡ s
unfolding split_lines join
join-split_lines [] = refl
join-split_lines (x ∷ s) = join-split newline (x ∷ s)

-- what a sync is judged by, of the group as it stands
abbrev pub offered : FeedConfig → FeedWorld → Bytes → List Bytes → Bool → FeedChange
offered c w group l rotating = record {
  current = list_group_members w.groups group;
  emails = usable_addresses c l;
  rotating = rotating;
}

-- The group's change to what the endpoint lists has been held since a second, and may be applied
-- when its wait has passed.
pub record IsWaiting (c : FeedConfig) (w : FeedWorld) (group : Bytes) (l : List Bytes) (second : ℕ)
    : Type 0 where
  pub rotating : Bool
  pub row : SyncRow
  pub has_feed : c.feeds group ≡ some rotating
  pub group_exists : exists_group w.groups group ≡ true
  pub has_row : lookup group w.states ≡ some row
  pub is_held : same_status row.status sync_held ≡ true
  pub same_change : row.pending_hash ≡ feed_set_hash c (usable_addresses c l)
  pub held_at : row.held_since ≡ second
  pub real_time : 0 < second
  pub not_kept : (row.kept_hash == feed_set_hash c (usable_addresses c l)) ≡ false
  pub wait_set : 0 < c.auto_apply_after
  pub listable : length l ≤ feed_max_addresses
  pub not_empty : is_nil (usable_addresses c l) ≡ false
  pub changes :
      is_nil (added (offered c w group l rotating))
        && is_nil (removed (offered c w group l rotating))
      ≡ false
  pub large : to_check (sync_state w.states group) (offered c w group l rotating) ≡ true
  pub not_too_large : too_large (sync_state w.states group) (offered c w group l rotating) ≡ false

-- the time at which the wait has passed
abbrev pub due_at : FeedConfig → ℕ → ℕ
due_at c second = second * 1000000000 + c.auto_apply_after

-- a round of the scheduled sync, which finds the list
abbrev pub round : FeedConfig → Bytes → List Bytes → FeedWorld → ℕ → FeedWorld × SyncReply
round c group l w now = sync_feed_attempt c w group group_feed [] true (listed l) now

module _ (c : FeedConfig) (w : FeedWorld) (group : Bytes) (l : List Bytes) (second : ℕ)
    (h : IsWaiting c w group l second) (now : ℕ) where
  abbrev hash : Bytes
  hash = feed_set_hash c (usable_addresses c l)

  waiting_from : held_from (sync_state w.states group) hash now ≡ second * 1000000000
  unfolding held_from sync_state unix_time
  waiting_from = ground (
    arith,
    h.has_row,
    h.held_at,
    h.real_time,
    h.is_held,
    h.same_change,
    bytes_beq_iff h.row.pending_hash hash,
  )

  still_asked : ((sync_state w.states group).kept_hash == hash) ≡ false
  unfolding sync_state
  still_asked = ground (arith, h.has_row, h.not_kept)

  waits :
      wait_or_apply c (sync_state w.states group) (offered c w group l h.rotating) hash now
      ≡ (if leb (due_at c second) now then apply_it true else hold (some (second * 1000000000)))
  unfolding wait_or_apply
  waits = ground (arith, h.wait_set, h.not_too_large, waiting_from, still_asked)

  decision :
      decide c (sync_state w.states group) (offered c w group l h.rotating) false hash now
      ≡ (if leb (due_at c second) now then apply_it true else hold (some (second * 1000000000)))
  unfolding decide
  decision = rw (h.changes, h.large, decide) waits

  round_lem :
      round c group l w now
      ≡ carry_out w group group_feed
          (sync_state w.states group)
          (offered c w group l h.rotating)
          false
          hash
          now
          (if leb (due_at c second) now then apply_it true else hold (some (second * 1000000000)))
  unfolding sync_feed_attempt use_fetched sync_members with_group
  round_lem =
      let full : ltb feed_max_addresses (length l) ≡ false = ground (arith, h.listable) in
      rw (sym decision) (
        rw
          (
            h.has_feed, full, h.not_empty, h.group_exists, sync_feed_attempt, use_fetched,
            sync_members, with_group,
          )
          refl)

  -- the state recorded while the change waits
  abbrev held_again : SyncState
  held_again = record (begun (sync_state w.states group) now) {
    pending_hash = hash;
    pending_add = added (offered c w group l h.rotating);
    pending_remove = removed (offered c w group l h.rotating);
    held_since = some (second * 1000000000);
  }

  abbrev next_world : FeedWorld
  next_world = (finish w group (sync_state w.states group) held_again sync_held now).0

  abbrev next_row : SyncRow
  next_row = record {
    last_attempt = now / 1000000000;
    last_success = old_success (lookup group w.states);
    status = sync_held;
    pending_hash = hash;
    pending_add_list = join_lines (added (offered c w group l h.rotating));
    pending_remove_list = join_lines (removed (offered c w group l h.rotating));
    accepted_list = join_lines (sync_state w.states group).accepted;
    held_since = second * 1000000000 / 1000000000;
    kept_hash = (sync_state w.states group).kept_hash;
  }

  next_has_row : lookup group next_world.states ≡ some next_row
  unfolding finish set_group_sync_state unix_or_zero
  next_has_row = ground (arith, lookup-insert group group next_row w.states, beq_refl group)

  accepted_same :
      (sync_state next_world.states group).accepted ≡ (sync_state w.states group).accepted
  unfolding sync_state
  accepted_same = ground (arith, next_has_row, h.has_row, join-split_lines h.row.accepted_list)

  still-IsWaiting : IsWaiting c next_world group l second
  unfolding finish to_check too_large
  still-IsWaiting = record {
    rotating = h.rotating;
    row = next_row;
    has_feed = h.has_feed;
    group_exists = h.group_exists;
    has_row = next_has_row;
    is_held = refl;
    same_change = refl;
    held_at = omega arith;
    real_time = h.real_time;
    not_kept = still_asked;
    wait_set = h.wait_set;
    listable = h.listable;
    not_empty = h.not_empty;
    changes = h.changes;
    large = rw accepted_same h.large;
    not_too_large = rw accepted_same h.not_too_large;
  }

  pub waits_on : now < due_at c second → IsWaiting c (round c group l w now).0 group l second
  unfolding carry_out
  waits_on early =
      let not_due : leb (due_at c second) now ≡ false = ground (arith, early) in
      rw (round_lem, not_due, carry_out) still-IsWaiting

  pub applied_when_due : due_at c second ≤ now → synced (round c group l w now).1 ≡ true
  unfolding carry_out finish
  applied_when_due late =
      let is_due : leb (due_at c second) now ≡ true = ground (arith, late) in
      let (t, done, held) =
        updated w group group_feed (usable_addresses c l) h.rotating (sync_state w.states group) now
          group_feed false true group [] h.group_exists in
      rw (round_lem, is_due, carry_out, done) refl

-- the rounds at these times
unfoldable pub rounds_on : FeedConfig → Bytes → List Bytes → FeedWorld → List ℕ → FeedWorld
rounds_on c group l w [] = w
rounds_on c group l w (t ∷ ts) = rounds_on c group l (round c group l w t).0 ts

waits_through :
    (c : FeedConfig) (group : Bytes) (l : List Bytes) (second : ℕ) (w : FeedWorld) (ts : List ℕ)
    → IsWaiting c w group l second
    → all (λ t. ltb t (due_at c second)) ts ≡ true
    → IsWaiting c (rounds_on c group l w ts) group l second
unfolding rounds_on
waits_through c group l second w [] h k = h
waits_through c group l second w (t ∷ ts) h k =
    waits_through c group l second (round c group l w t).0 ts
      (waits_on c w group l second h t (ground arith)) (ground arith)

-- A held change that may be applied is applied at the first round when its wait has passed, if the
-- endpoint lists the same set at every round until then, however many: the members are then
-- exactly the listed addresses that are usable.
pub held_change_applied :
    (c : FeedConfig) (w : FeedWorld) (group : Bytes) (l : List Bytes) (second : ℕ) (ts : List ℕ)
    (now : ℕ) (email : Bytes)
    → IsWaiting c w group l second
    → all (λ t. ltb t (due_at c second)) ts ≡ true
    → due_at c second ≤ now
    → (synced (round c group l (rounds_on c group l w ts) now).1 ≡ true)
      × (has_member (round c group l (rounds_on c group l w ts) now).0.groups group email
          ≡ contains (usable_addresses c l) email)
held_change_applied c w group l second ts now email h k late =
    let v = rounds_on c group l w ts in
    let done =
      applied_when_due c v group l second (waits_through c group l second w ts h k) now late in
    (
      done,
      sync_exact c v group group_feed [] true (listed l) now group email
          ∙ rw (done, beq_refl group) refl,
    )
