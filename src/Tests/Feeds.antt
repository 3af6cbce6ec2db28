-- ===== src/Tests/Feeds.antt =====
-- A feed that replaces a group's members, held and then applied.
use vps_scaffold_auth.Common.{
  ◌≡◌, refl, ◌↔◌, true, false, ◌&&◌, none, some, List, [], ◌∷◌, map, arith, if◌then◌else◌, ◌==◌,
  Bytes, bytes_beq, nat_eq, bytes_eq, pair_eq, contains,
}
use vps_scaffold_auth.Common.Text.{
  codes, is_space, lower, to_lower, trim_left, trim_right, trim_space, last_index, split_by, join,
  has_prefix, has_suffix,
}
use vps_scaffold_auth.Common.Table.{lookup}
use vps_scaffold_auth.Authz.Roles.{Policy, new_policy}
use vps_scaffold_auth.Store.Groups.{
  groups_for_email, included_by, bytes_le, insert_sorted, seconds_of, order_by, Groups, GroupRow,
  list_group_members,
}
use vps_scaffold_auth.Store.Feeds.{SyncRow, sync_held, sync_ok, sync_state}
use vps_scaffold_auth.Store.Feeds.Applied.{has_member}
use vps_scaffold_auth.Server.Cutoffs.Restart.{start}
use vps_scaffold_auth.Server.Recheck.{new_group_recheck}
use vps_scaffold_auth.Server.Feeds.{
  FeedConfig, FeedWorld, Fetched, unreachable, listed, usable_addresses, feed_set_hash, group_feed,
}
use vps_scaffold_auth.Server.Feeds.Sync.{sync_feed_attempt}
use vps_scaffold_auth.Server.Feeds.Exact.{synced, fetched_set, sync_exact}
use vps_scaffold_auth.Server.Feeds.Bounded.{Unattended, sync-Unattended}
use vps_scaffold_auth.Server.Feeds.Retry.{Scheduler, Runner, Turn, for_timer, take_turn}
use vps_scaffold_auth.Store.Walk.Reach.{In}
use vps_scaffold_auth.Store.Walk.Exact.{Reach}
use vps_scaffold_auth.Server.Feeds.Reaches.{synced_groups}
use vps_scaffold_auth.Server.Feeds.Waits.{IsWaiting, round, rounds_on, offered, held_change_applied}

abbrev rota : Bytes
rota = codes "rota"

abbrev config : FeedConfig
config = record {
  feeds = λ g. some false;
  auto_apply_after = 3600000000000;
  policy = new_policy (codes "x.org" ∷ []) [];
  parse_address = λ s. some s;
  sha256_hex = λ s. 7 ∷ s;
}

abbrev old_members : List Bytes
old_members = codes "a@x.org" ∷ codes "b@x.org" ∷ codes "c@x.org" ∷ []

abbrev new_members : List Bytes
new_members = codes "d@x.org" ∷ codes "e@x.org" ∷ codes "f@x.org" ∷ []

-- The change to the new members has been held since second 100.
abbrev held_row : SyncRow
held_row = record {
  last_attempt = 100;
  last_success = 50;
  status = sync_held;
  pending_hash = 7 ∷ codes "d@x.org\ne@x.org\nf@x.org";
  pending_add_list = codes "d@x.org\ne@x.org\nf@x.org";
  pending_remove_list = codes "a@x.org\nb@x.org\nc@x.org";
  accepted_list = codes "a@x.org\nb@x.org\nc@x.org";
  held_since = 100;
  kept_hash = [];
}

abbrev groups : Groups
groups = record {
  groups = (rota, record { label = []; created_at = 1 }) ∷ [];
  members = map (λ e. ((rota, e), 1)) old_members;
  includes = [];
}

abbrev world : FeedWorld
world = record {
  groups = groups;
  states = (rota, held_row) ∷ [];
  world = start [] new_group_recheck;
  audit = [];
  alerts = [];
  retrying = [];
  retry_seq = 0;
}

usable : usable_addresses config new_members ≡ new_members
unfolding usable_addresses vps_scaffold_auth.Store.Groups.order_by
    vps_scaffold_auth.Server.Feeds.usable_from vps_scaffold_auth.Server.Address.plain_address
    vps_scaffold_auth.Server.Address.valid_email vps_scaffold_auth.Server.Address.normalize_email
    to_lower trim_space bytes_beq vps_scaffold_auth.Server.Address.after_at last_index
    vps_scaffold_auth.Authz.Roles.allowed vps_scaffold_auth.Authz.Roles.role new_policy
    vps_scaffold_auth.Authz.Roles.domain_part vps_scaffold_auth.Store.Groups.insert_sorted
    vps_scaffold_auth.Store.Groups.bytes_le vps_scaffold_auth.Authz.Roles.add_admins
    vps_scaffold_auth.Authz.Roles.add_domains vps_scaffold_auth.Authz.Roles.normalize
    vps_scaffold_auth.Authz.Roles.role_of vps_scaffold_auth.Authz.Roles.valid_public_domain
    has_prefix has_suffix is_space lower split_by trim_left trim_right
usable = refl

current : list_group_members groups rota ≡ old_members
unfolding list_group_members order_by seconds_of bytes_beq insert_sorted bytes_le
current = refl

sync_exact_example :
    has_member
      (sync_feed_attempt config world rota group_feed [] true
        (listed new_members)
        200000000000).0.groups
      rota
      (codes "d@x.org")
    ≡ (if synced
            (sync_feed_attempt config world rota group_feed [] true
              (listed new_members)
              200000000000).1
          && rota == rota
        then contains (fetched_set config (listed new_members)) (codes "d@x.org")
        else has_member groups rota (codes "d@x.org"))
sync_exact_example =
    sync_exact config world rota group_feed [] true (listed new_members) 200000000000 rota
      (codes "d@x.org")

waiting : IsWaiting config world rota new_members 100
unfolding sync_state feed_set_hash join vps_scaffold_auth.Store.Feeds.unix_time
    vps_scaffold_auth.Store.Feeds.split_lines split_by vps_scaffold_auth.Server.Feeds.diff_members
    bytes_beq vps_scaffold_auth.Server.Feeds.Decide.to_check
    vps_scaffold_auth.Server.Feeds.Decide.too_large vps_scaffold_auth.Server.Feeds.Decide.drift
    vps_scaffold_auth.Server.Feeds.feed_too_large vps_scaffold_auth.Server.Feeds.feed_hold_adds
    vps_scaffold_auth.Server.Feeds.feed_hold_removes vps_scaffold_auth.Server.Feeds.feed_hold_drift
    lookup vps_scaffold_auth.Store.Groups.exists_group vps_scaffold_auth.Store.Groups.order_by
    vps_scaffold_auth.Store.Groups.insert_sorted vps_scaffold_auth.Store.Groups.bytes_le
waiting = record {
  rotating = false;
  row = held_row;
  has_feed = refl;
  group_exists = refl;
  has_row = refl;
  is_held = refl;
  same_change = rw usable refl;
  held_at = refl;
  real_time = omega arith;
  not_kept = refl;
  wait_set = omega arith;
  listable = omega arith;
  not_empty = rw usable refl;
  changes = rw (usable, current) refl;
  large = rw (usable, current) refl;
  not_too_large = rw (usable, current) refl;
}

held_change_applied_example :
    (synced
        (round config rota new_members
          (rounds_on config rota new_members world (200000000000 ∷ 300000000000 ∷ []))
          3700000000000).1
      ≡ true)
    × (has_member
          (round config rota new_members
            (rounds_on config rota new_members world (200000000000 ∷ 300000000000 ∷ []))
            3700000000000).0.groups
          rota
          (codes "d@x.org")
        ≡ contains (usable_addresses config new_members) (codes "d@x.org"))
held_change_applied_example =
    held_change_applied config world rota new_members 100 (200000000000 ∷ 300000000000 ∷ [])
      3700000000000 (codes "d@x.org") waiting refl (omega arith)

done :
    synced
      (sync_feed_attempt config world rota group_feed [] true (listed new_members) 3700000000000).1
    ≡ true
unfolding rounds_on
done =
    (held_change_applied config world rota new_members 100 [] 3700000000000 (codes "d@x.org")
      waiting refl (omega arith)).0

sync-Unattended_example :
    Unattended config
      (sync_state world.states rota)
      (offered config world rota new_members false)
      (feed_set_hash config (fetched_set config (listed new_members)))
      3700000000000
sync-Unattended_example =
    sync-Unattended config world rota group_feed false true (listed new_members) 3700000000000 refl
      done

abbrev first : Runner
first = record { group = rota; seq = 1; attempt = 2; phase = for_timer }

-- The first sequence has lost its entry to a recorded result.
abbrev lost : Scheduler
lost = record { world = record world { retry_seq = 1 }; turn = none; running = first ∷ [] }

abbrev rota_turn : Turn
rota_turn = record { group = rota; attempted = false }

-- A later round cannot reach the feed either, and a second sequence takes the entry.
abbrev turn_begun : Scheduler
turn_begun = record lost { turn = some rota_turn }

abbrev attempted : Scheduler
attempted = record lost { turn = some (record rota_turn { attempted = true }) }

abbrev retried : Scheduler
retried = take_turn config attempted (record rota_turn { attempted = true }) unreachable 7

synced_groups_example :
    let r =
      sync_feed_attempt config world rota group_feed [] true (listed new_members) 3700000000000 in
    (In (groups_for_email r.0.groups (codes "d@x.org")) rota) ↔ (
      (m : Bytes) × ((if synced r.1 && rota == m
          then contains (fetched_set config (listed new_members)) (codes "d@x.org")
          else has_member groups m (codes "d@x.org"))
        ≡ true)
      × Reach (included_by r.0.groups) rota m)
synced_groups_example =
    synced_groups config world rota group_feed [] true (listed new_members) 3700000000000
      (codes "d@x.org") rota
