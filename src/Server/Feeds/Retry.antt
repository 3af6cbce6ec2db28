-- ===== src/Server/Feeds/Retry.antt =====
-- internal/server/group_feeds.go: the retries of a scheduled sync that could not reach its endpoint:
-- `startRetry`, `ownsRetry`, `advanceRetry`, `endRetry`, `scheduledSync` and `retryFeed`. A runner is a
-- goroutine of `retryFeed`; a turn is a group's turn in the round. Each goes from one lock to the next: a look
-- at the table of retries, a sync, a change of the table. What happens when runners, the
-- round and the admin pages interleave is a sequence of such steps. A sync is one step, the clearing of the
-- group's retry at its end included.
pub mod Entries
pub mod Owner
use vps_scaffold_auth.Common.{
  ℕ, zero, suc, ◌+◌, ◌-◌, ◌*◌, ◌/◌, ◌%◌, ◌≤◌, ◌<◌, max, String, ◌≡◌, refl, sym, ap, ◌∙◌, ◌≢◌, ◌↔◌,
  ◌⊎◌, inl, inr, Bool, true, false, not, ◌&&◌, ◌||◌, Option, none, some, List, [], ◌∷◌, ◌++◌, map,
  arith, ltb, leb, nat_beq, if◌then◌else◌, nat_beq_iff, ltb→lt, leb→le, Bool-cases, Option-cases,
  is_some, Eq, ◌==◌, Bytes, bytes_beq, bytes_beq_iff, pair_beq, nat_eq, bytes_eq, pair_eq, beq_refl,
  length, is_nil, drop, any, all, keep, count_if, contains, any-append, all-append, length-append,
  contains-append, contains-keep, all-contains,
}
use vps_scaffold_auth.Common.Text.{
  codes, is_space, lower, to_lower, trim_left, trim_right, trim_space, last_index, cons_head,
  split_by, split, fields_func, join, cut, has_prefix, has_suffix, trim_prefix,
}
use vps_scaffold_auth.Common.Table.{
  Table, lookup, delete, insert, lookup-delete, lookup-insert, length-delete-le, length-insert-le,
  keep_value, filter_values, IsKeyed, lookup-filter_values, filter_values-IsKeyed, insert-IsKeyed,
  delete-IsKeyed, length-insert_present, length-insert_absent, filter_keys, lookup-filter_keys,
}
use vps_scaffold_auth.Server.Feeds.{FeedConfig, Fetched, FeedRetry, FeedWorld, group_feed}
use vps_scaffold_auth.Server.Feeds.Sync.{
  SyncReply, no_feed, nothing_held, change_replaced, will_retry, recorded, sync_feed_attempt,
}

abbrev pub feed_retries : ℕ
feed_retries = 3

abbrev pub feed_retry_delay : ℕ
feed_retry_delay = 300000000000

-- Where a runner is: waiting for its timer, past the look at its entry, or with the result of its
-- attempt, which is to be retried or is the last.
pub data Phase : Type 0 where
  for_timer : Phase
  looked : Phase
  failed : Phase
  finished : Phase

pub record Runner : Type 0 where
  pub group : Bytes
  pub seq : ℕ
  pub attempt : ℕ  -- the one that it makes next, or has made
  pub phase : Phase

-- A group's turn, past the look at the group's retry, with its attempt made or not.
pub record Turn : Type 0 where
  pub group : Bytes
  pub attempted : Bool

pub record Scheduler : Type 0 where
  pub world : FeedWorld
  pub turn : Option Turn
  pub running : List Runner

abbrev pub retry_of : ℕ → ℕ → ℕ → FeedRetry
retry_of now attempt seq = record {
  at = now;
  next = now + feed_retry_delay;
  attempt = attempt;
  seq = seq;
}

unfoldable pub start_retry : FeedWorld → Bytes → ℕ → FeedWorld
start_retry w group now = record w {
  retrying = insert group (retry_of now 1 (w.retry_seq + 1)) w.retrying;
  retry_seq = w.retry_seq + 1;
}

unfoldable pub owns_retry : FeedWorld → Bytes → ℕ → Bool
owns_retry w group seq = elim (lookup group w.retrying) [ none ↦ false | some r ↦ r.seq == seq ]

unfoldable pub advance_retry : FeedWorld → Bytes → ℕ → ℕ → ℕ → FeedWorld × Bool
advance_retry w group seq attempt now =
    if owns_retry w group seq
    then (record w { retrying = insert group (retry_of now attempt seq) w.retrying }, true)
    else (w, false)

unfoldable pub end_retry : FeedWorld → Bytes → ℕ → FeedWorld
end_retry w group seq =
    if owns_retry w group seq then record w { retrying = delete group w.retrying } else w

abbrev pub is_retry : SyncReply → Bool
is_retry will_retry = true
is_retry _ = false

-- `scheduledSync`, up to the sync: a group with a retry is passed over
unfoldable pub begin_turn : FeedWorld → Bytes → Option Turn
begin_turn w group =
    if is_some (lookup group w.retrying)
    then none
    else some (record { group = group; attempted = false })

-- the rest of `scheduledSync`: the sync, then the start of the retries if it is to be retried
unfoldable pub take_turn : FeedConfig → Scheduler → Turn → Fetched → ℕ → Scheduler
take_turn c s t fetched now =
    let (w, reply) = sync_feed_attempt c s.world t.group group_feed [] true fetched now in
    if t.attempted
    then record {
      world = start_retry s.world t.group now;
      turn = none;
      running =
          record { group = t.group; seq = s.world.retry_seq + 1; attempt = 2; phase = for_timer }
          ∷ s.running;
    }
    else record s {
      world = w;
      turn = if is_retry reply then some (record t { attempted = true }) else none;
    }

-- the attempt of a runner
unfoldable pub retry_attempt :
    FeedConfig → FeedWorld → Runner → Fetched → ℕ → FeedWorld × Option Runner
retry_attempt c w r fetched now =
    let last = leb (1 + feed_retries) r.attempt in
    let (t, reply) = sync_feed_attempt c w r.group group_feed [] (not last) fetched now in
    (t, some (record r { phase = if not last && is_retry reply then failed else finished }))

-- one lock of the loop of `retryFeed`, and the runner if it goes on
unfoldable pub retry_step :
    FeedConfig → FeedWorld → Runner → Phase → Fetched → ℕ → FeedWorld × Option Runner
retry_step c w r for_timer fetched now =
    (w, if owns_retry w r.group r.seq then some (record r { phase = looked }) else none)
retry_step c w r looked fetched now = retry_attempt c w r fetched now
retry_step c w r failed fetched now =
    let (t, own) = advance_retry w r.group r.seq r.attempt now in
    (t, if own then some (record r { attempt = r.attempt + 1; phase = for_timer }) else none)
retry_step c w r finished fetched now = (end_retry w r.group r.seq, none)

abbrev pub kept_runner : Option Runner → List Runner
kept_runner none = []
kept_runner (some r) = r ∷ []

-- What can happen: a group's turn begins, and goes on; a runner comes to its next lock, or stops with the
-- process while it waits; a sync or the acceptance of a held change from the admin pages.
pub data Step (c : FeedConfig) : Scheduler → Scheduler → Type 0 where
  round :
      (s : Scheduler) (group : Bytes)
      → s.turn ≡ none
      → Step c s (record s { turn = begin_turn s.world group })
  goes_on :
      (s : Scheduler) (t : Turn) (fetched : Fetched) (now : ℕ)
      → s.turn ≡ some t
      → Step c s (take_turn c s t fetched now)
  runs :
      (w : FeedWorld) (o : Option Turn) (xs ys : List Runner) (r : Runner) (fetched : Fetched)
      (now : ℕ)
      → Step c
          (record { world = w; turn = o; running = xs ++ r ∷ ys })
          (record {
            world = (retry_step c w r r.phase fetched now).0;
            turn = o;
            running = xs ++ (kept_runner (retry_step c w r r.phase fetched now).1 ++ ys);
          })
  stop :
      (w : FeedWorld) (o : Option Turn) (xs ys : List Runner) (r : Runner)
      → r.phase ≡ for_timer
      → Step c
          (record { world = w; turn = o; running = xs ++ r ∷ ys })
          (record { world = end_retry w r.group r.seq; turn = o; running = xs ++ ys })
  by_hand :
      (s : Scheduler) (group actor accept_hash : Bytes) (fetched : Fetched) (now : ℕ)
      → Step c s (record s {
        world = (sync_feed_attempt c s.world group actor accept_hash false fetched now).0;
      })

pub data Steps (c : FeedConfig) : Scheduler → Scheduler → Type 0 where
  start : {s : Scheduler} → Steps c s s
  more : {s t u : Scheduler} → Steps c s t → Step c t u → Steps c s u
