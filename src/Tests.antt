-- ===== src/Tests.antt =====
-- Tests of the development on concrete inputs, by the part of the program, and the concrete
-- parameters that they run it with.
mod Codecs
mod Access
mod Codes
mod Limits
mod Sessions
mod Gateway
mod Guesses
mod Groups
mod Feeds
mod SignIn
mod Audit
