-- ===== src/Server.antt =====
-- internal/server: the parts of the gateway that keep state between requests.
pub mod Cutoffs
pub mod Recheck
pub mod Replay
pub mod Alerts
pub mod AdminCode
pub mod Tier
pub mod Policy
pub mod Verify
pub mod Challenges
pub mod Sends
pub mod Address
pub mod SignIn
pub mod Feeds
pub mod StepUp
pub mod Audit
