-- ===== src/Server/Feeds/Sync.antt =====
-- internal/server/group_feeds.go: `syncFeedAttempt` and `keepHeldChange`.
use vps_scaffold_auth.Common.{
  ℕ, ◌/◌, Bool, not, ◌&&◌, ◌||◌, Option, none, some, List, [], ◌∷◌, ◌++◌, map, ltb, if◌then◌else◌,
  ◌==◌, Bytes, nat_eq, bytes_eq, pair_eq, length, is_nil,
}
use vps_scaffold_auth.Common.Table.{delete}
use vps_scaffold_auth.Server.Feeds.Decide.{
  same_status, same_time, FeedChange, added, removed, Decision, hold, apply_it, decide,
}
use vps_scaffold_auth.Server.Feeds.{
  FeedConfig, Fetched, unreachable, unusable, listed, feed_max_addresses, usable_addresses,
  feed_set_hash, FeedEvent, member_added, member_removed, group_synced, needs_attention,
  members_changed, FeedWorld, group_feed,
}
use vps_scaffold_auth.Server.Cutoffs.{mark_groups_changed}
use vps_scaffold_auth.Store.Groups.{Groups, create_group, exists_group, list_group_members}
use vps_scaffold_auth.Store.Feeds.{
  SyncStatus, sync_never, sync_ok, sync_failed, sync_empty, sync_held, SyncState,
  set_group_sync_state, sync_state, apply_group_sync,
}

pub data SyncReply : Type 0 where
  no_feed : SyncReply
  nothing_held : SyncReply
  change_replaced : SyncReply
  will_retry : SyncReply
  recorded : SyncState → SyncReply

-- whether `finish` alerts
unfoldable pub alerting : SyncState → SyncState → Bool
alerting prev st =
    not (same_status st.status sync_ok)
    && (not (same_status prev.status st.status)
        || (same_status st.status sync_held
            && (not (prev.pending_hash == st.pending_hash)
                || not (same_time st.held_since prev.held_since))))

-- the closure `finish`
unfoldable pub finish :
    FeedWorld → Bytes → SyncState → SyncState → SyncStatus → ℕ → FeedWorld × SyncReply
finish w group prev state status now =
    let st : SyncState = record state {
      status = status;
      last_success = if same_status status sync_ok then some now else state.last_success;
    } in
    (
      record w {
        states = set_group_sync_state w.states group st;
        retrying = delete group w.retrying;
        alerts = if alerting prev st then needs_attention group st ∷ w.alerts else w.alerts;
      },
      recorded st,
    )

-- the state that a sync starts from
abbrev pub begun : SyncState → ℕ → SyncState
begun prev now = record {
  last_attempt = some now;
  last_success = none;
  status = sync_never;
  pending_hash = [];
  pending_add = [];
  pending_remove = [];
  accepted = prev.accepted;
  held_since = none;
  kept_hash = prev.kept_hash;
}

unfoldable pub sync_events : Bytes → Bytes → FeedChange → Bool → Bool → List FeedEvent
sync_events actor group x accept auto =
    map (member_added actor group) (added x)
    ++ map (member_removed actor group) (removed x)
    ++ group_synced actor group (length (added x)) (length (removed x)) accept auto ∷ []

abbrev pub with_members :
    FeedWorld → Bytes → Bytes → FeedChange → Bool → Bool → ℕ → Groups → FeedWorld
with_members w group actor x accept auto now groups = record w {
  groups = groups;
  world = mark_groups_changed w.world (now / 1000000000);
  audit = sync_events actor group x accept auto ++ w.audit;
  alerts = if accept then w.alerts else members_changed group (added x) (removed x) auto ∷ w.alerts;
}

-- the members' update; `none` where the store refuses it
unfoldable pub update_members :
    FeedWorld → Bytes → Bytes → FeedChange → Bool → Bool → ℕ → Option FeedWorld
update_members w group actor x accept auto now =
    if is_nil (added x) && is_nil (removed x)
    then some w
    else elim (apply_group_sync w.groups group (added x) (removed x) (now / 1000000000)) [
      | none ↦ none
      | some groups ↦ some (with_members w group actor x accept auto now groups)
    ]

-- the state that an applied change leaves
abbrev pub settled : SyncState → FeedChange → Bool → Bool → ℕ → SyncState
settled prev x accept auto now = record (begun prev now) {
  accepted = if accept || (auto || is_nil prev.accepted) then x.emails else prev.accepted;
  kept_hash = if accept || auto then [] else prev.kept_hash;
}

unfoldable pub carry_out :
    FeedWorld
    → Bytes
    → Bytes
    → SyncState
    → FeedChange
    → Bool
    → Bytes
    → ℕ
    → Decision
    → FeedWorld × SyncReply
carry_out w group actor prev x accept hash now (hold since) =
    finish w group prev
      (record (begun prev now) {
        pending_hash = hash;
        pending_add = added x;
        pending_remove = removed x;
        held_since = since;
      })
      sync_held now
carry_out w group actor prev x accept hash now (apply_it auto) =
    elim (update_members w group (if auto then group_feed else actor) x accept auto now) [
      | none ↦ finish w group prev (begun prev now) sync_failed now
      | some t ↦ finish t group prev (settled prev x accept auto now) sync_ok now
    ]

-- the group, created where it does not exist
unfoldable pub with_group : FeedWorld → Bytes → ℕ → FeedWorld
with_group w group now =
    if exists_group w.groups group
    then w
    else record w { groups = create_group w.groups group [] (now / 1000000000) }

-- with a fetched set that is not empty
unfoldable pub sync_members :
    FeedConfig
    → FeedWorld
    → Bytes
    → Bytes
    → SyncState
    → Bool
    → Bool
    → List Bytes
    → ℕ
    → FeedWorld × SyncReply
sync_members c w group actor prev rotating accept emails now =
    let t = with_group w group now in
    let x : FeedChange = record {
      current = list_group_members t.groups group;
      emails = emails;
      rotating = rotating;
    } in
    let hash = feed_set_hash c emails in
    carry_out t group actor prev x accept hash now (decide c prev x accept hash now)

unfoldable pub use_fetched :
    FeedConfig
    → FeedWorld
    → Bytes
    → Bytes
    → SyncState
    → Bool
    → Bool
    → Bool
    → Fetched
    → ℕ
    → FeedWorld × SyncReply
use_fetched c w group actor prev rotating accept may_retry unreachable now =
    if may_retry then (w, will_retry) else finish w group prev (begun prev now) sync_failed now
use_fetched c w group actor prev rotating accept may_retry unusable now =
    finish w group prev (begun prev now) sync_failed now
use_fetched c w group actor prev rotating accept may_retry (listed l) now =
    let emails = usable_addresses c l in
    if ltb feed_max_addresses (length l)
    then finish w group prev (begun prev now) sync_failed now
    else if is_nil emails
    then finish w group prev (begun prev now) sync_empty now
    else sync_members c w group actor prev rotating accept emails now

unfoldable pub sync_feed_attempt :
    FeedConfig → FeedWorld → Bytes → Bytes → Bytes → Bool → Fetched → ℕ → FeedWorld × SyncReply
sync_feed_attempt c w group actor accept_hash may_retry fetched now =
    let prev = sync_state w.states group in
    let accept = not (is_nil accept_hash) in
    elim (c.feeds group) [
      | none ↦ (w, no_feed)
      | some rotating ↦
          if accept && not (same_status prev.status sync_held)
          then (w, nothing_held)
          else if accept && not (accept_hash == prev.pending_hash)
          then (w, change_replaced)
          else use_fetched c w group actor prev rotating accept may_retry fetched now
    ]

pub data KeepReply : Type 0 where
  kept : KeepReply
  keep_already_applied : KeepReply
  keep_nothing_held : KeepReply
  keep_replaced : KeepReply

unfoldable pub keep_held_change : FeedConfig → FeedWorld → Bytes → Bytes → FeedWorld × KeepReply
keep_held_change c w group hash =
    let st = sync_state w.states group in
    if not (same_status st.status sync_held)
    then (
      w,
      if not (is_nil hash) && hash == feed_set_hash c st.accepted
          then keep_already_applied
          else keep_nothing_held,
    )
    else if is_nil hash || not (hash == st.pending_hash)
    then (w, keep_replaced)
    else (
      record w { states = set_group_sync_state w.states group (record st { kept_hash = hash }) },
      kept,
    )
