-- ===== src/Authz.antt =====
-- internal/authz/authz.go: who is let in, and where it is safe to redirect them. `Roles` has the
-- policy, `Groups` the group names, `Access` the decision for one application, `Redirect` the
-- post-login target.
pub mod Roles
pub mod Groups
pub mod Access
pub mod Redirect
