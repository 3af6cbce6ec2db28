-- ===== src/Server/Tier.antt =====
-- internal/server/handlers.go and breakglass_targets.go: what a session's person is now, by the
-- configuration, and which of their groups the session may carry. `Gateway` is the configuration
-- these read; `Directory` holds what the route files, the feeds and the store answer them.
use vps_scaffold_auth.Common.{
  ℕ, ◌-◌, Bool, true, false, not, ◌&&◌, ◌||◌, Option, none, some, List, ltb, leb, nat_beq,
  if◌then◌else◌, ◌==◌, Bytes, nat_eq, bytes_eq, pair_eq, length, is_nil, any, keep, contains,
}
use vps_scaffold_auth.Common.Text.{to_lower, trim_space, split, join}
use vps_scaffold_auth.Authz.Roles.{
  Policy, role_admin, role_user, role_deny, role_guest, role, allowed, guest_eligible,
}
use vps_scaffold_auth.Authz.Groups.{is_reserved_group, build_groups, has_group, list_names, comma}
use vps_scaffold_auth.Authz.Redirect.{Parser}
use vps_scaffold_auth.Session.{Identity, kind_normal, kind_break_glass, kind_guest}
use vps_scaffold_auth.Session.Manager.{Manager}

pub record Gateway : Type 0 where
  pub manager : Manager
  pub policy : Policy
  pub totp_enabled : Bool
  pub open_hosts : List Bytes
  pub session_max_age : ℕ

pub record Directory : Type 0 where
  pub admin_paired : List Bytes  -- `adminPairedGroups`
  pub app_roles : List Bytes  -- `appRoleGroups`
  pub routes_readable : Bool  -- `routeFilesReadable`
  pub is_feed : Bytes → Bool  -- whether `feedFor` finds a feed
  pub groups_for_email : Bytes → List Bytes  -- the store's `GroupsForEmail`
  pub passkey_owner : ℕ → Option Bytes  -- the address of the store's `GetPasskey`

abbrev pub admin_step_max_age : ℕ
admin_step_max_age = 43200

abbrev pub step_time : Identity → ℕ
step_time id = if id.step == 0 then id.auth else id.step

unfoldable pub admin_step_fresh : Gateway → Option Identity → ℕ → Bool
admin_step_fresh g none now = not g.totp_enabled
admin_step_fresh g (some id) now =
    if not g.totp_enabled
    then true
    else if not (id.kind == kind_normal) || not id.totp
    then false
    else ltb 1 (step_time id) && leb (now - step_time id) admin_step_max_age

unfoldable pub tier_role : Gateway → Option Identity → Bytes → ℕ → Bytes
tier_role g id base now =
    if (base == role_admin) && not (admin_step_fresh g id now) then role_user else base

unfoldable pub renewal_role : Gateway → Identity → Bytes
renewal_role g id =
    if id.kind == kind_guest
    then (if not (is_nil g.open_hosts) && guest_eligible id.email then role_guest else role_deny)
    else role g.policy id.email

unfoldable pub tier_stale : Gateway → Identity → ℕ → Bool
tier_stale g id now =
    if not (id.kind == kind_normal)
    then false
    else if has_group id.groups role_admin
    then not (tier_role g (some id) (renewal_role g id) now == role_admin)
    else tier_role g (some id) (renewal_role g id) now == role_admin

unfoldable pub policy_withdrawn : Gateway → Identity → Bool
policy_withdrawn g id =
    if not (id.kind == kind_normal) && not (id.kind == kind_guest)
    then false
    else renewal_role g id == role_deny

unfoldable pub wants_admin_step : Gateway → Directory → Identity → Bytes → ℕ → Bool
wants_admin_step g d id req_groups now =
    if not (id.kind == kind_normal)
      || (admin_step_fresh g (some id) now || not (renewal_role g id == role_admin))
    then false
    else if list_names req_groups role_admin
    then true
    else any (list_names req_groups) d.admin_paired

unfoldable pub known_session_kind : Bytes → Bool
known_session_kind kind =
    (kind == kind_normal) || ((kind == kind_break_glass) || (kind == kind_guest))

unfoldable pub is_admin_session : Identity → Bool
is_admin_session id = (id.kind == kind_normal) && has_group id.groups role_admin

unfoldable pub is_open_host : Parser → Gateway → Bytes → Bool
is_open_host parse g rd =
    if is_nil rd || is_nil g.open_hosts
    then false
    else elim (parse rd) [ none ↦ false | some u ↦ contains g.open_hosts (to_lower u.hostname) ]

unfoldable pub normalize_group_name : Bytes → Bytes
normalize_group_name group = to_lower (trim_space group)

-- whether `withoutAdminPairedGroups` keeps a group
unfoldable pub outside_admin_tier : Directory → Bytes → Bool
outside_admin_tier d group =
    let n = normalize_group_name group in
    if not (is_reserved_group n) && (contains d.admin_paired n || not d.routes_readable)
    then d.is_feed n
    else true

unfoldable pub without_admin_paired_groups :
    Gateway → Directory → Bytes → Bytes → List Bytes → List Bytes
without_admin_paired_groups g d email base groups =
    if not (base == role_user)
      || (is_nil groups || (not (role g.policy email == role_admin) || not g.totp_enabled))
    then groups
    else keep (outside_admin_tier d) groups

-- whether `withoutAppRolesForOutsider` keeps an outsider's group
unfoldable pub open_to_outsider : Directory → Bytes → Bool
open_to_outsider d group =
    let n = normalize_group_name group in
    if is_reserved_group n
    then true
    else if contains d.app_roles n || not d.routes_readable
    then d.is_feed n
    else true

unfoldable pub without_app_roles_for_outsider :
    Gateway → Directory → Bytes → List Bytes → List Bytes
without_app_roles_for_outsider g d email groups =
    if is_nil groups || allowed g.policy email then groups else keep (open_to_outsider d) groups

unfoldable pub guest_groups_now : Gateway → Directory → Identity → Bytes
guest_groups_now g d id =
    let groups = split comma id.groups in
    let kept = without_app_roles_for_outsider g d id.email groups in
    if nat_beq (length kept) (length groups) then id.groups else join comma kept

unfoldable pub compute_groups : Gateway → Directory → Bytes → Bytes → Bytes
compute_groups g d email base = build_groups base (
    without_admin_paired_groups g d email base
      (without_app_roles_for_outsider g d email (d.groups_for_email email)))

unfoldable pub passkey_still_valid : Directory → Identity → Bool
passkey_still_valid d id =
    if id.pk == 0
    then true
    else elim (d.passkey_owner id.pk) [ none ↦ false | some email ↦ email == id.email ]
