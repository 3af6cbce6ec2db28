-- ===== src/Tests/Gateway.antt =====
-- Requests, alerts and codes at a concrete gateway.
use vps_scaffold_auth.Common.{
  ◌≡◌, refl, ◌≢◌, true, false, not, ◌&&◌, none, some, [], ◌∷◌, arith, ◌==◌, Bytes, bytes_beq,
  nat_eq, bytes_eq, pair_eq, is_nil, any,
}
use vps_scaffold_auth.Common.Text.{
  codes, is_space, lower, to_lower, trim_left, trim_right, trim_space, last_index, split_by, split,
  has_prefix, has_suffix,
}
use vps_scaffold_auth.Common.Table.{lookup}
use vps_scaffold_auth.Authz.Access.{can_access_app}
use vps_scaffold_auth.Authz.Roles.{Policy, new_policy, role_deny}
use vps_scaffold_auth.Session.{Identity, session_cookie, kind_normal, kind_break_glass, kind_guest}
use vps_scaffold_auth.Session.Manager.{granted_identity, read_session}
use vps_scaffold_auth.Server.Cutoffs.{
  World, groups_key, new_session_cutoffs, end_sessions, mark_groups_changed, session_ended,
  groups_stale, read_live_session,
}
use vps_scaffold_auth.Server.Cutoffs.Restart.{
  IsSound, ends, groups, apply_each, AllSound, start, restart_decides_alike,
}
use vps_scaffold_auth.Server.Cutoffs.Ended.{by_email, end_sessions_lasts, groups_change_lasts}
use vps_scaffold_auth.Server.Recheck.{
  new_group_recheck, fresh, forget_all, Confirmation, confirm_each, late_confirmations_forgotten,
}
use vps_scaffold_auth.Server.Tier.{Gateway, Directory, known_session_kind, policy_withdrawn}
use vps_scaffold_auth.Server.Policy.{
  read_field, read_fields, Requirement, parse_policy, semicolon, unrestricted-any,
}
use vps_scaffold_auth.Server.Verify.{
  VerifyRequest, passed, handle_verify, with_groups_now, renewal_due, admits, verify_session,
  apply_policy, check_access,
}
use vps_scaffold_auth.Server.Verify.Admitted.{Passes, verify_passed}
use vps_scaffold_auth.Tests.Sessions.{ann, test_manager, identity, session_is_read, signed_in}

abbrev policy : Policy
policy = new_policy (codes "x.org" ∷ []) []

abbrev pub gateway : Gateway
gateway = record {
  manager = test_manager;
  policy = policy;
  totp_enabled = true;
  open_hosts = [];
  session_max_age = 0;
}

abbrev pub directory : Directory
directory = record {
  admin_paired = [];
  app_roles = [];
  routes_readable = true;
  is_feed = λ g. false;
  groups_for_email = λ e. codes "rota" ∷ [];
  passkey_owner = λ n. none;
}

abbrev pub quiet : World
quiet = start [] new_group_recheck

abbrev request : VerifyRequest
request = record { cookies = signed_in; policy = codes "any"; host = codes "app.x.org" }

abbrev anyone : Requirement
anyone = record { domains = []; groups = []; allow_guests = false }

read_live : read_live_session test_manager 0 quiet.cutoffs signed_in 200 ≡ some identity
unfolding read_live_session session_ended start new_session_cutoffs
    vps_scaffold_auth.Store.Sessions.list_session_cutoffs granted_identity lookup bytes_beq
read_live = rw (session_is_read, read_live_session) refl

known : known_session_kind identity.kind ≡ true
unfolding known_session_kind granted_identity bytes_beq
known = refl

not_due : renewal_due gateway quiet identity 200 ≡ false
unfolding renewal_due vps_scaffold_auth.Session.Manager.needs_renew bytes_beq granted_identity
    groups_stale start new_session_cutoffs lookup
    vps_scaffold_auth.Store.Sessions.list_session_cutoffs vps_scaffold_auth.Server.Tier.tier_stale
    vps_scaffold_auth.Authz.Groups.has_group vps_scaffold_auth.Server.Tier.tier_role
    vps_scaffold_auth.Server.Tier.renewal_role vps_scaffold_auth.Authz.Roles.role to_lower
    new_policy vps_scaffold_auth.Authz.Roles.domain_part policy_withdrawn
    vps_scaffold_auth.Authz.Roles.add_admins vps_scaffold_auth.Authz.Roles.add_domains
    vps_scaffold_auth.Authz.Roles.guest_eligible vps_scaffold_auth.Authz.Roles.normalize
    vps_scaffold_auth.Authz.Roles.role_of vps_scaffold_auth.Authz.Roles.valid_public_domain
    has_prefix has_suffix is_space last_index lower split_by trim_left trim_right trim_space
    vps_scaffold_auth.Server.Tier.admin_step_fresh
not_due = refl

policy_read : parse_policy (codes "any") ≡ some anyone
unfolding parse_policy read_fields split_by read_field trim_space bytes_beq
policy_read = refl

admitted : admits (with_groups_now gateway directory identity) anyone ≡ true
unfolding admits can_access_app bytes_beq with_groups_now granted_identity trim_space
admitted = refl

is_passed :
    (handle_verify gateway directory quiet request 200000000000).1.verdict
    ≡ passed ann (codes "user")
unfolding handle_verify verify_session apply_policy check_access with_groups_now granted_identity
    bytes_beq
is_passed =
    rw (read_live, handle_verify)
      (rw (known, not_due, verify_session)
        (rw (policy_read, apply_policy) (rw (admitted, check_access) refl)))

verify_passed_example :
    (id : Identity) × (read_live_session test_manager 0 quiet.cutoffs signed_in 200 ≡ some id)
    × Passes gateway directory quiet request id 200
        (handle_verify gateway directory quiet request 200000000000).1.audit
        ann
        (codes "user")
verify_passed_example =
    verify_passed gateway directory quiet request 200000000000 ann (codes "user") is_passed

unrestricted-any_example :
    (is_nil anyone.domains && is_nil anyone.groups)
    ≡ any (λ f. trim_space f == codes "any") (split semicolon (codes "any"))
unfolding parse_policy read_fields split_by read_field trim_space bytes_beq
unrestricted-any_example = unrestricted-any (codes "any") anyone refl

email_apart : ann ≢ groups_key
email_apart = λ h. absurd (ground arith)

end_sessions_lasts_example :
    session_ended 0 (apply_each (end_sessions quiet ann 150) (groups 160 ∷ [])).cutoffs identity 200
    ≡ true
unfolding granted_identity
end_sessions_lasts_example =
    end_sessions_lasts quiet (groups 160 ∷ []) identity ann 150 0 200 (omega arith)
      (by_email refl email_apart (omega arith))

abbrev bob : Bytes
bob = codes "bob@x.org"

groups_change_lasts_example :
    groups_stale (apply_each (mark_groups_changed quiet 150) (ends bob 160 ∷ [])).cutoffs identity
    ≡ not (identity.kind == kind_break_glass)
unfolding granted_identity
groups_change_lasts_example =
    groups_change_lasts quiet (ends bob 160 ∷ []) identity 150 (omega arith) (omega arith)

restart_decides_alike_example :
    let w = apply_each (start [] new_group_recheck) (ends ann 150 ∷ groups 160 ∷ []) in
    (session_ended 0 (new_session_cutoffs w.stored) identity 200
      ≡ session_ended 0 w.cutoffs identity 200)
    × (groups_stale (new_session_cutoffs w.stored) identity ≡ groups_stale w.cutoffs identity)
unfolding AllSound IsSound lookup
restart_decides_alike_example =
    restart_decides_alike [] new_group_recheck (ends ann 150 ∷ groups 160 ∷ []) 0 200 identity
      (λ k t e. absurd (ground arith)) ((email_apart, omega arith), (omega arith, tt))

abbrev late : Confirmation
late = record { email = ann; groups = codes "user"; now = 6; gen = 0 }

late_confirmations_forgotten_example :
    fresh (confirm_each (forget_all new_group_recheck) (late ∷ [])) ann (codes "user") 7 ≡ false
unfolding new_group_recheck
late_confirmations_forgotten_example =
    late_confirmations_forgotten new_group_recheck (late ∷ []) ann (codes "user") 7 refl
