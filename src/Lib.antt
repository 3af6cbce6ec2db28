-- ===== src/Lib.antt =====
-- A model of vps-scaffold-auth, the gateway that signs people in by emailed codes, passkeys and
-- break-glass cards, and that a reverse proxy asks about every request to a protected site.
--
-- The parts, and the files that model them:
--
--   internal/authz/authz.go           Authz: roles (Roles), groups (Groups), the decision on a
--                                     route's requirement (Access), redirect targets (Redirect)
--   internal/ratelimit/ratelimit.go   Ratelimit: the token buckets and their sweep
--   internal/session/session.go       Session: signed tokens (Token), cookies of a request and a
--                                     response (Cookies), the manager of every typed cookie
--                                     (Manager), CSRF tokens (Csrf)
--   internal/store/sqlite.go, store.go
--                                     Store: sign-in codes (Codes), session cutoffs and used
--                                     challenges (Sessions), authenticator attempts (Totp), groups
--                                     and their includes (Groups) with the recursive queries that
--                                     follow them (Walk), the syncs of feeds (Feeds)
--   internal/server/session_cutoffs.go
--                                     Server/Cutoffs: sessions ended early, in memory and stored
--   internal/server/group_recheck.go  Server/Recheck
--   internal/server/totp_replay.go    Server/Replay
--   internal/server/code_alerts.go    Server/Alerts
--   internal/server/passkeys.go       Server/AdminCode (checkAdminCode), Server/Challenges
--                                     (challengeGuard), Server/Tier (passkeyStillValid)
--   internal/server/handlers.go, breakglass_targets.go
--                                     Server/Tier: what a session's person is now, and the groups
--                                     the session may carry; Server/Policy: parsePolicy;
--                                     Server/Verify: handleVerify and its renewals;
--                                     Server/Sends: allowSend; Server/SignIn: handleRequest and, in
--                                     its Attempt, handleVerifyCode and completeLogin;
--                                     Server/StepUp: handleTOTP
--   internal/server/access_audit.go   Server/Audit: the log of visits
--   internal/server/admin_group_lists.go
--                                     Server/Address: plainAddress, with the handlers' validEmail
--   internal/server/group_feeds.go    Server/Feeds: the thresholds and the fetched set; its Sync:
--                                     syncFeedAttempt and keepHeldChange, with what holds a
--                                     change in Decide; Retry: scheduledSync and retryFeed
--
-- How they meet: handle_verify reads a session through Session/Manager and Server/Cutoffs, derives
-- roles by Authz/Roles, rebuilds groups by Authz/Groups, reads the policy header by Server/Policy
-- and decides by Authz/Access; a refusal goes through Server/Recheck, which is part of the state
-- that mark_groups_changed changes. check_admin_code charges Ratelimit, reserves an attempt in
-- Store/Totp and gives the code to Server/Replay. challengeGuard writes the table of
-- Store/Sessions. handle_request charges Ratelimit and writes a row of Store/Codes, which
-- handle_verify_code consumes before it issues a session by Session/Manager with the groups of
-- Server/Tier; handle_totp reads that session, gives the code to check_admin_code and issues the
-- session of the admin tier. sync_feed_attempt updates Store/Groups and calls mark_groups_changed;
-- what groups_for_email of Store/Groups answers is the field of that name of Server/Tier.Directory.
-- Names follow the source's in lower case with underscores.
--
-- Choices:
--   - A string is a list of byte values (Bytes); lower case and white space are ASCII's.
--   - A map or an SQL table is an association list with its key (Common/Table); a method's SQL
--     statements are one step on it. Failures of the database are not modelled, but for a row of
--     the log of visits that is lost.
--   - Times are numbers, Unix seconds in sessions, cookies and the store, nanoseconds in the
--     limiter and the guards in memory; the comment of each file says which. Differences stop at
--     zero where the clock would have gone back, which every comparison made reads as Go reads the
--     negative difference. Identifiers and times are not negative.
--   - The limiter's floats are exact: a token is as many units as the window has nanoseconds.
--   - Operations under one lock are one step, and a concurrent run is a sequence of steps. The retries
--     of feeds and the log of visits go on from lock to lock, with writes and syncs as steps between;
--     a sync is one step, with the clearing of the group's retry at its end. A page of Server/SignIn,
--     Server/StepUp and Server/Verify is answered in one step, and Server/Cutoffs changes at once.
--   - Recursion is on lists, but for two fuels. That of the digits of a number in Server/Cutoffs is
--     the number plus one, which is more than its digits. That of a recursive query in Store/Walk is
--     its first rows and one for each include: a row leaves the queue once, and enters it either
--     at the start or through an include.
--   - A code comes with the request for it, and a message gives its mail slot back at a moment of its
--     own; the mail of notices is taken to find a slot. The list that a feed's endpoint answers comes
--     with the sync. The order in which a set of rows is read is the source's ORDER BY, by bytes.
--   - Code outside the repository is a parameter: url.Parse (Authz/Redirect.Parser), HMAC, base64
--     and JSON (Session/Token.Codec, with the round trips that the code relies on, JSON's for values
--     whose texts are valid UTF-8, which alone the package leaves as they are), the
--     validation of an authenticator code, net/mail, the keyed hash of codes and SHA-256. What the
--     handlers ask of route files, feeds and the tables of other parts are the fields of
--     Server/Tier.Directory.
--   - Logging, the locations and query strings of redirects, pages, mail and random bytes are left
--     out; a nonce is an argument.
--
-- Not modelled: the store's passkeys, cards and audit tables beyond visits and sign-in events, the
-- sign-in pages other than those named above, the passkey and admin pages, the timers of feeds and the words
-- of their alerts, the reading of route files and configuration, the members API and its
-- listener, break-glass printing, mail, and the start of the process: they are pages, files,
-- listeners and third-party formats around the parts above.
--
-- Common holds the shared names, tests, equality, lists, texts and tables; Tests runs the
-- development on concrete inputs.
pub mod Common
pub mod Authz
pub mod Ratelimit
pub mod Store
pub mod Session
pub mod Server
mod Tests
