-- ===== src/Server/Feeds/Retry/Entries.antt =====
-- What a sync leaves of the table of retries: nothing new.
use vps_scaffold_auth.Common.{
  ℕ, ◌/◌, ◌≡◌, refl, sym, ap, ◌∙◌, ◌⊎◌, inl, inr, Bool, true, false, not, ◌&&◌, Option, none, some,
  [], arith, ltb, if◌then◌else◌, Bool-cases, Option-cases, ◌==◌, Bytes, nat_eq, bytes_eq, pair_eq,
  length, is_nil,
}
use vps_scaffold_auth.Common.Table.{Table, delete}
use vps_scaffold_auth.Server.Feeds.{
  FeedConfig, FeedRetry, Fetched, unreachable, unusable, listed, feed_max_addresses,
  usable_addresses, FeedWorld, group_feed,
}
use vps_scaffold_auth.Server.Feeds.Decide.{
  FeedChange, added, removed, same_status, Decision, hold, apply_it,
}
use vps_scaffold_auth.Server.Feeds.Sync.{
  begun, finish, carry_out, update_members, with_group, sync_members, use_fetched,
  sync_feed_attempt,
}
use vps_scaffold_auth.Store.Groups.{exists_group}
use vps_scaffold_auth.Store.Feeds.{
  SyncState, SyncStatus, sync_held, sync_empty, sync_failed, sync_ok, sync_state, apply_group_sync,
}
use vps_scaffold_auth.Server.Feeds.Retry.{change_replaced, will_retry, SyncReply, nothing_held}

-- No sequence number is handed out, and the table is as it was or lacks the group's entry.
pub record Quieter (group : Bytes) (w t : FeedWorld) : Type 0 where
  pub same_seq : t.retry_seq ≡ w.retry_seq
  pub entries : (t.retrying ≡ w.retrying) ⊎ (t.retrying ≡ delete group w.retrying)

abbrev retries_of : Option FeedWorld → Table Bytes FeedRetry × ℕ
retries_of none = ([], 0)
retries_of (some w) = (w.retrying, w.retry_seq)

update_retries :
    (w t : FeedWorld) (group actor : Bytes) (x : FeedChange) (accept auto : Bool) (now : ℕ)
    → update_members w group actor x accept auto now ≡ some t
    → retries_of (some t) ≡ retries_of (some w)
unfolding update_members
update_retries w t group actor x accept auto now h =
    elim (Bool-cases (is_nil (added x) && is_nil (removed x))) [
      | inl q ↦ ap retries_of (sym (rw (q, update_members) at h))
      | inr q ↦
          elim (Option-cases
            (apply_group_sync w.groups group (added x) (removed x) (now / 1000000000))) [
              | inl e ↦ absurd (ground (arith, rw (q, e, update_members) at h))
              | inr (groups, e) ↦ ap retries_of (sym (rw (q, e, update_members) at h))
            ]
    ]

finish-Quieter :
    (w t : FeedWorld) (group : Bytes) (prev state : SyncState) (status : SyncStatus) (now : ℕ)
    → retries_of (some t) ≡ retries_of (some w)
    → Quieter group w (finish t group prev state status now).0
unfolding finish
finish-Quieter w t group prev state status now e = record {
  same_seq = ap (λ x. x.1) e;
  entries = inr (ap (λ x. delete group x.0) e);
}

carry-Quieter :
    (w t : FeedWorld) (group actor : Bytes) (prev : SyncState) (x : FeedChange) (accept : Bool)
    (hash : Bytes) (now : ℕ) (d : Decision)
    → retries_of (some t) ≡ retries_of (some w)
    → Quieter group w (carry_out t group actor prev x accept hash now d).0
unfolding carry_out
carry-Quieter w t group actor prev x accept hash now (hold since) same =
    finish-Quieter w t group prev _ sync_held now same
carry-Quieter w t group actor prev x accept hash now (apply_it auto) same =
    elim (Option-cases
      (update_members t group (if auto then group_feed else actor) x accept auto now)) [
        | inl e ↦ rw (e, carry_out) (finish-Quieter w t group prev _ sync_failed now same)
        | inr (u, e) ↦
            rw (e, carry_out)
              (finish-Quieter w u group prev _ sync_ok now (
                update_retries t u group (if auto then group_feed else actor) x accept auto now e
                ∙ same))
      ]

with_group_retries :
    (w : FeedWorld) (group : Bytes) (now : ℕ)
    → retries_of (some (with_group w group now)) ≡ retries_of (some w)
unfolding with_group
with_group_retries w group now = elim (Bool-cases (exists_group w.groups group)) [
  | inl q ↦ rw (q, with_group) refl
  | inr q ↦ rw (q, with_group) refl
]

if_Quieter :
    (b : Bool) (group : Bytes) (w : FeedWorld) (x y : FeedWorld × SyncReply)
    → Quieter group w x.0
    → Quieter group w y.0
    → Quieter group w (if b then x else y).0
if_Quieter true group w x y h k = h
if_Quieter false group w x y h k = k

unchanged : (group : Bytes) (w : FeedWorld) → Quieter group w w
unchanged group w = record { same_seq = refl; entries = inl refl }

use-Quieter :
    (c : FeedConfig) (w : FeedWorld) (group actor : Bytes) (prev : SyncState)
    (rotating accept may_retry : Bool) (fetched : Fetched) (now : ℕ)
    → Quieter group w (use_fetched c w group actor prev rotating accept may_retry fetched now).0
unfolding use_fetched sync_members
use-Quieter c w group actor prev rotating accept may_retry unreachable now =
    if_Quieter may_retry group w (w, will_retry) _ (unchanged group w)
      (finish-Quieter w w group prev _ sync_failed now refl)
use-Quieter c w group actor prev rotating accept may_retry unusable now =
    finish-Quieter w w group prev _ sync_failed now refl
use-Quieter c w group actor prev rotating accept may_retry (listed l) now =
    let ended =
      λ (status : SyncStatus). finish-Quieter w w group prev (begun prev now) status now refl in
    elim (Bool-cases (ltb feed_max_addresses (length l))) [
      | inl a ↦ rw (a, use_fetched) (ended sync_failed)
      | inr a ↦ elim (Bool-cases (is_nil (usable_addresses c l))) [
        | inl b ↦ rw (a, b, use_fetched) (ended sync_empty)
        | inr b ↦
            rw (a, b, use_fetched, sync_members)
              (carry-Quieter w (with_group w group now) group actor prev _ accept _ now _
                (with_group_retries w group now))
      ]
    ]

pub sync-Quieter :
    (c : FeedConfig) (w : FeedWorld) (group actor hash : Bytes) (may_retry : Bool)
    (fetched : Fetched) (now : ℕ)
    → Quieter group w (sync_feed_attempt c w group actor hash may_retry fetched now).0
unfolding sync_feed_attempt
sync-Quieter c w group actor hash may_retry fetched now = elim (Option-cases (c.feeds group)) [
  | inl q ↦ rw (q, sync_feed_attempt) (unchanged group w)
  | inr (rotating, q) ↦
      let prev = sync_state w.states group in
      let accept = not (is_nil hash) in
      rw (q, sync_feed_attempt)
        (if_Quieter (accept && not (same_status prev.status sync_held)) group w (w, nothing_held) _
          (unchanged group w)
          (if_Quieter (accept && not (hash == prev.pending_hash)) group w (w, change_replaced) _
            (unchanged group w)
            (use-Quieter c w group actor prev rotating accept may_retry fetched now)))
]
