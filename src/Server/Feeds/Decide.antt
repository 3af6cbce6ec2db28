-- ===== src/Server/Feeds/Decide.antt =====
-- internal/server/group_feeds.go: the part of `syncFeedAttempt` that decides whether a change is held.
use vps_scaffold_auth.Common.{
  ℕ, ◌+◌, Bool, true, false, not, ◌&&◌, ◌||◌, Option, none, some, List, ltb, leb, if◌then◌else◌,
  ◌==◌, Bytes, nat_eq, bytes_eq, pair_eq, length, is_nil,
}
use vps_scaffold_auth.Server.Feeds.{
  FeedConfig, feed_hold_adds, feed_hold_removes, feed_hold_drift, feed_too_large, diff_members,
}
use vps_scaffold_auth.Store.Feeds.{
  SyncStatus, sync_never, sync_ok, sync_failed, sync_empty, sync_held, SyncState,
}

abbrev pub same_status : SyncStatus → SyncStatus → Bool
same_status sync_never sync_never = true
same_status sync_ok sync_ok = true
same_status sync_failed sync_failed = true
same_status sync_empty sync_empty = true
same_status sync_held sync_held = true
same_status _ _ = false

abbrev pub same_time : Option ℕ → Option ℕ → Bool
same_time none none = true
same_time (some s) (some t) = s == t
same_time _ _ = false

-- What a change is judged by: the members, the fetched set, and whether the group is `Rotating`.
pub record FeedChange : Type 0 where
  pub current : List Bytes
  pub emails : List Bytes
  pub rotating : Bool

abbrev pub added : FeedChange → List Bytes
added x = (diff_members x.current x.emails).0

abbrev pub removed : FeedChange → List Bytes
removed x = (diff_members x.current x.emails).1

unfoldable pub drift : List Bytes → List Bytes → ℕ
drift accepted emails =
    length (diff_members accepted emails).0 + length (diff_members accepted emails).1

-- whether there are reasons to hold a change
unfoldable pub to_check : SyncState → FeedChange → Bool
to_check prev x =
    ltb (feed_hold_adds (length x.current)) (length (added x))
    || (ltb (feed_hold_removes (length x.current)) (length (removed x))
        || ltb (feed_hold_drift (length prev.accepted)) (drift prev.accepted x.emails))

unfoldable pub too_large : SyncState → FeedChange → Bool
too_large prev x =
    not x.rotating && feed_too_large (length x.current) (length x.emails) (length prev.accepted)

-- `heldSince`, when the wait is set and the change is not too large
unfoldable pub held_from : SyncState → Bytes → ℕ → ℕ
held_from prev hash now = elim prev.held_since [
  | none ↦ now
  | some t ↦ if same_status prev.status sync_held && prev.pending_hash == hash then t else now
]

pub data Decision : Type 0 where
  hold : Option ℕ → Decision  -- since when
  apply_it : Bool → Decision  -- whether its wait has passed

-- a change that there is reason to check
unfoldable pub wait_or_apply : FeedConfig → SyncState → FeedChange → Bytes → ℕ → Decision
wait_or_apply c prev x hash now =
    let since = held_from prev hash now in
    if not (ltb 0 c.auto_apply_after) || too_large prev x
    then hold none
    else if not (prev.kept_hash == hash)
        && (not (since == now) && leb (since + c.auto_apply_after) now)
    then apply_it true
    else hold (some since)

unfoldable pub decide : FeedConfig → SyncState → FeedChange → Bool → Bytes → ℕ → Decision
decide c prev x accept hash now =
    if accept
    then (if hash == prev.pending_hash
        then apply_it false
        else hold (if ltb 0 c.auto_apply_after && not (too_large prev x) then some now else none))
    else if is_nil (added x) && is_nil (removed x)
    then apply_it false
    else if to_check prev x
    then wait_or_apply c prev x hash now
    else apply_it false
