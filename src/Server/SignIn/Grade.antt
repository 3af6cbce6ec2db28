-- ===== src/Server/SignIn/Grade.antt =====
-- The groups of a session that begins with an emailed code.
use vps_scaffold_auth.Common.{
  ℕ, ◌≡◌, refl, ◌∙◌, Bool, true, false, not, ◌&&◌, Option, some, List, [], ◌∷◌, arith,
  if◌then◌else◌, ◌==◌, Bytes, bytes_beq, nat_eq, bytes_eq, pair_eq, all, keep, contains,
}
use vps_scaffold_auth.Common.Text.{to_lower, trim_space}
use vps_scaffold_auth.Server.SignIn.{SignInConfig, SignInState, CodeAttempt}
use vps_scaffold_auth.Server.SignIn.Attempt.{
  accept_login, handle_verify_code, complete_login, login_groups, login_ttl, step_identity,
}
use vps_scaffold_auth.Server.SignIn.Sound.{IsGenuine, destination, genuine_accepted}
use vps_scaffold_auth.Authz.Roles.{
  role_admin, role_user, role_guest, role_deny, role, role_of, login_role,
}
use vps_scaffold_auth.Authz.Groups.{group_char, valid_group_name, has_group, is_reserved_group}
use vps_scaffold_auth.Authz.Groups.Build.{has_group-build_groups}
use vps_scaffold_auth.Session.{Identity, kind_guest, kind_normal}
use vps_scaffold_auth.Session.Manager.{clear_state, clear_pending, issue_session_grant}
use vps_scaffold_auth.Server.Tier.{
  Directory, Gateway, is_open_host, tier_role, admin_step_fresh, compute_groups,
  without_admin_paired_groups, without_app_roles_for_outsider, outside_admin_tier, open_to_outsider,
}
use vps_scaffold_auth.Server.Cutoffs.{SessionCutoffs}
use vps_scaffold_auth.Server.Sends.{second_of}

all-keep : (p q : Bytes → Bool) (xs : List Bytes) → all p xs ≡ true → all p (keep q xs) ≡ true
all-keep p q [] h = refl
all-keep p q (x ∷ xs) h = ground (arith, all-keep p q xs)

kept_valid :
    (g : Gateway) (d : Directory) (email base : Bytes) (groups : List Bytes)
    → all valid_group_name groups ≡ true
    → all valid_group_name (
        without_admin_paired_groups g d email base
          (without_app_roles_for_outsider g d email groups))
      ≡ true
unfolding without_admin_paired_groups without_app_roles_for_outsider
kept_valid g d email base groups h = ground (
  arith,
  all-keep valid_group_name (open_to_outsider d) groups,
  all-keep valid_group_name (outside_admin_tier d) groups,
  all-keep valid_group_name (outside_admin_tier d) (keep (open_to_outsider d) groups),
)

-- the roles of a session without a second step
plain_role :
    (g : Gateway) (base : Bytes) (now t : ℕ)
    → g.totp_enabled ≡ true
    → (tier_role g (some (step_identity false now)) base t == role_admin) ≡ false
unfolding tier_role admin_step_fresh bytes_beq
plain_role g base now t h = ground arith

role_valid :
    (c : SignInConfig) (email : Bytes) (open_host : Bool) (i : Option Identity) (t : ℕ)
    → (login_role c.gateway.policy email open_host == role_deny) ≡ false
    → valid_group_name (tier_role c.gateway i (login_role c.gateway.policy email open_host) t)
      ≡ true
unfolding bytes_beq valid_group_name group_char tier_role login_role role role_of
role_valid c email open_host i t k = ground arith

admin_reserved : is_reserved_group role_admin ≡ true
unfolding is_reserved_group bytes_beq to_lower trim_space
admin_reserved = refl

reserved_out :
    (gs : List Bytes) → (contains gs role_admin && not (is_reserved_group role_admin)) ≡ false
reserved_out gs = ground (arith, admin_reserved)

-- the role that the session is given
plain_tier :
    (c : SignInConfig) (email : Bytes) (open_host : Bool) (now : ℕ)
    → c.gateway.totp_enabled ≡ true
    → (login_role c.gateway.policy email open_host == role_deny) ≡ false
    → tier_role c.gateway
        (some (step_identity false now))
        (login_role c.gateway.policy email open_host)
        (second_of now)
      ≡ (if login_role c.gateway.policy email open_host == role_guest
          then role_guest
          else role_user)
unfolding bytes_beq tier_role admin_step_fresh login_role role role_of
plain_tier c email open_host now h k = ground arith

plain_groups :
    (c : SignInConfig) (d : Directory) (email : Bytes) (open_host : Bool) (now : ℕ)
    → c.gateway.totp_enabled ≡ true
    → (login_role c.gateway.policy email open_host == role_deny) ≡ false
    → login_groups c d email (login_role c.gateway.policy email open_host) false now
      ≡ compute_groups c.gateway d email (
          if login_role c.gateway.policy email open_host == role_guest
          then role_guest
          else role_user)
unfolding login_groups
plain_groups c d email open_host now h k = rw (plain_tier c email open_host now h k) refl

plain_ttl :
    (c : SignInConfig) (role : Bytes) (remember : Bool)
    → login_ttl c role remember
      ≡ (if remember && not (role == role_guest) then c.session_remember_ttl else c.session_ttl)
unfolding login_ttl bytes_beq
plain_ttl c role remember = ground arith

code_groups_plain :
    (c : SignInConfig) (d : Directory) (email : Bytes) (open_host : Bool) (now : ℕ)
    → c.gateway.totp_enabled ≡ true
    → all valid_group_name (d.groups_for_email email) ≡ true
    → (login_role c.gateway.policy email open_host == role_deny) ≡ false
    → has_group
        (login_groups c d email (login_role c.gateway.policy email open_host) false now)
        role_admin
      ≡ false
unfolding login_groups compute_groups
code_groups_plain c d email open_host now h v k =
    let base =
      tier_role c.gateway (some (step_identity false now))
        (login_role c.gateway.policy email open_host) (second_of now) in
    has_group-build_groups base _ role_admin
      (role_valid c email open_host (some (step_identity false now)) (second_of now) k)
      (kept_valid c.gateway d email base (d.groups_for_email email) v)
    ∙ rw (plain_role c.gateway (login_role c.gateway.policy email open_host) now (second_of now) h)
        (reserved_out _)

-- The session that a genuine attempt is given is for the address that asked. A guest's is of the guest
-- kind, at the role of a guest and with the session's usual lifetime; another person's is of the normal
-- kind, at the role of a user, also for an administrator where the second step is in force, and with the
-- longer lifetime if asked for. Neither has a second step or a passkey, its groups are those that the
-- stored groups give at that role, and where these have valid names there is no administrator's group.
pub session_by_code :
    (c : SignInConfig) (d : Directory) (cutoffs : SessionCutoffs) (s : SignInState)
    (r : CodeAttempt) (now : ℕ)
    → (g : IsGenuine c s r now) → c.gateway.totp_enabled ≡ true
    → all valid_group_name (d.groups_for_email g.asked.email) ≡ true
    → let guest =
        login_role c.gateway.policy g.asked.email
          (is_open_host c.parse c.gateway (destination c r g.asked))
        == role_guest in
      let groups =
        compute_groups c.gateway d g.asked.email (if guest then role_guest else role_user) in
      ((handle_verify_code c d cutoffs s r now).1.cookies
        ≡ clear_pending c.gateway.manager (
            clear_state c.gateway.manager (
              issue_session_grant c.gateway.manager [] g.asked.email groups
                (record {
                  kind = if guest then kind_guest else kind_normal;
                  totp = false;
                  pk = 0;
                  auth = 0;
                  card = 0;
                  step = 0;
                })
                (if g.asked.remember && not guest then c.session_remember_ttl else c.session_ttl)
                (second_of now))))
      × (has_group groups role_admin ≡ false)
unfolding accept_login complete_login
session_by_code c d cutoffs s r now g h v =
    let open_host = is_open_host c.parse c.gateway (destination c r g.asked) in
    let at = plain_groups c d g.asked.email open_host now h g.permitted_there in
    let lasts =
      plain_ttl c (login_role c.gateway.policy g.asked.email open_host) g.asked.remember in
    let plain = code_groups_plain c d g.asked.email open_host now h v g.permitted_there in
    (
      rw (genuine_accepted c d cutoffs s r now g, g.permitted_there, accept_login)
          (rw (at, lasts) refl),
      rw at at plain,
    )
