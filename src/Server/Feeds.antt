-- ===== src/Server/Feeds.antt =====
-- internal/server/group_feeds.go: groups filled from an endpoint. What a fetch of the endpoint gives is
-- an argument; SHA-256 and net/mail are parameters. Times are nanoseconds. Left out: the words of
-- details and alerts, the sending of alerts, and the timers.
pub mod Decide
pub mod Sync
pub mod Exact
pub mod Bounded
pub mod Reaches
pub mod Waits
pub mod Retry
use vps_scaffold_auth.Common.{
  ℕ, zero, suc, ◌+◌, ◌-◌, ◌*◌, ◌/◌, ◌%◌, ◌≤◌, ◌<◌, max, String, ◌≡◌, refl, sym, ap, ◌∙◌, ◌≢◌, ◌↔◌,
  ◌⊎◌, inl, inr, Bool, true, false, not, ◌&&◌, ◌||◌, Option, none, some, List, [], ◌∷◌, ◌++◌, map,
  arith, ltb, leb, nat_beq, if◌then◌else◌, nat_beq_iff, ltb→lt, leb→le, Bool-cases, Option-cases,
  is_some, Eq, ◌==◌, Bytes, bytes_beq, bytes_beq_iff, pair_beq, nat_eq, bytes_eq, pair_eq, beq_refl,
  length, is_nil, drop, any, all, keep, count_if, contains, any-append, all-append, length-append,
  contains-append, contains-keep, all-contains,
}
use vps_scaffold_auth.Common.Text.{
  codes, is_space, lower, to_lower, trim_left, trim_right, trim_space, last_index, cons_head,
  split_by, split, fields_func, join, cut, has_prefix, has_suffix, trim_prefix,
}
use vps_scaffold_auth.Common.Table.{
  Table, lookup, delete, insert, lookup-delete, lookup-insert, length-delete-le, length-insert-le,
  keep_value, filter_values, IsKeyed, lookup-filter_values, filter_values-IsKeyed, insert-IsKeyed,
  delete-IsKeyed, length-insert_present, length-insert_absent, filter_keys, lookup-filter_keys,
}
use vps_scaffold_auth.Authz.Roles.{Policy, allowed}
use vps_scaffold_auth.Server.Address.{AddressParser, normalize_email, plain_address}
use vps_scaffold_auth.Server.Cutoffs.{World, mark_groups_changed}
use vps_scaffold_auth.Store.Groups.{Groups, order_by}
use vps_scaffold_auth.Store.Feeds.{SyncState, SyncRow, join_lines}

pub record FeedConfig : Type 0 where
  pub feeds : Bytes → Option Bool  -- whether the group's feed is `Rotating`
  pub auto_apply_after : ℕ
  pub policy : Policy
  pub parse_address : AddressParser
  pub sha256_hex : Bytes → Bytes

-- what the request to the endpoint gives
pub data Fetched : Type 0 where
  unreachable : Fetched
  unusable : Fetched
  listed : List Bytes → Fetched

abbrev pub feed_max_addresses : ℕ
feed_max_addresses = 20000

-- the loop of `fetchFeed`; `seen` holds the entries of `out`
unfoldable pub usable_from : FeedConfig → List Bytes → List Bytes → List Bytes
usable_from c out [] = out
usable_from c out (raw ∷ l) =
    let e = normalize_email raw in
    usable_from c
      (if not (plain_address c.parse_address e) || not (allowed c.policy e)
        then out
        else if contains out e
        then out
        else out ++ e ∷ [])
      l

unfoldable pub usable_addresses : FeedConfig → List Bytes → List Bytes
usable_addresses c l = order_by (usable_from c [] l)

unfoldable pub feed_hold_adds : ℕ → ℕ
feed_hold_adds current = max 5 (current / 4)

unfoldable pub feed_hold_removes : ℕ → ℕ
feed_hold_removes current = max 2 (current / 4)

unfoldable pub feed_hold_drift : ℕ → ℕ
feed_hold_drift accepted = max 3 (accepted / 4)

unfoldable pub feed_too_large : ℕ → ℕ → ℕ → Bool
feed_too_large current next accepted =
    ltb (next * 2) current || (ltb (next * 2) accepted || ltb (2 * current + 10) next)

-- what to add, and what to remove
unfoldable pub diff_members : List Bytes → List Bytes → List Bytes × List Bytes
diff_members current want = (
  keep (λ e. not (contains current e)) want,
  order_by (keep (λ e. not (contains want e)) current),
)

unfoldable pub feed_set_hash : FeedConfig → List Bytes → Bytes
feed_set_hash c emails = c.sha256_hex (join_lines emails)

-- the audit rows of a sync
pub data FeedEvent : Type 0 where
  member_added : Bytes → Bytes → Bytes → FeedEvent  -- the actor, the group, the address
  member_removed : Bytes → Bytes → Bytes → FeedEvent
  group_synced : Bytes → Bytes → ℕ → ℕ → Bool → Bool → FeedEvent  -- the actor and the group; how many added and removed; accepted; automatic

pub data FeedAlert : Type 0 where
  needs_attention : Bytes → SyncState → FeedAlert
  members_changed : Bytes → List Bytes → List Bytes → Bool → FeedAlert

pub record FeedRetry : Type 0 where
  pub at : ℕ
  pub next : ℕ
  pub attempt : ℕ
  pub seq : ℕ

pub record FeedWorld : Type 0 where
  pub groups : Groups
  pub states : Table Bytes SyncRow
  pub world : World
  pub audit : List FeedEvent
  pub alerts : List FeedAlert
  pub retrying : Table Bytes FeedRetry
  pub retry_seq : ℕ

abbrev pub group_feed : Bytes
group_feed = codes "group feed"
