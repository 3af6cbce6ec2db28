-- ===== src/Server/Feeds/Retry/Owner.antt =====
-- What becomes of a sequence of retries that has lost its entry.
use vps_scaffold_auth.Common.{ℕ, ◌≤◌, ◌≡◌, Bool, true, false, Bytes, nat_eq, bytes_eq, pair_eq}
use vps_scaffold_auth.Server.Feeds.{FeedWorld}
use vps_scaffold_auth.Server.Feeds.Retry.{Phase, looked, owns_retry}

-- The number has been handed out, and is not that of the group's entry.
pub record IsSuperseded (group : Bytes) (n : ℕ) (w : FeedWorld) : Type 0 where
  pub handed_out : n ≤ w.retry_seq
  pub not_owner : owns_retry w group n ≡ false

abbrev pub is_looked : Phase → Bool
is_looked looked = true
is_looked _ = false
