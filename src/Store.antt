-- ===== src/Store.antt =====
-- internal/store: the SQLite store. Each child models the tables of one concern, with an operation
-- for each method: an SQL table is a `Table` by its primary key, and a method's statements run in
-- order on it, as one transaction. Failures of the database itself are not modelled; times are Unix
-- seconds.
pub mod Codes
pub mod Sessions
pub mod Totp
pub mod Walk
pub mod Groups
pub mod Feeds
