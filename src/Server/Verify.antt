-- ===== src/Server/Verify.antt =====
-- internal/server/handlers.go: `handleVerify`, which decides every request to a protected site, and
-- the renewal it makes. A reply is where the request is sent, the cookies written on the way and
-- the rows sent to the access audit. The store answers (no database error), and one time is read
-- for the whole request: nanoseconds in what decides, whose `second_of` is given to what the code counts
-- in seconds, the renewal and the tiers.
pub mod Passed
pub mod Admitted
use vps_scaffold_auth.Common.{
  ℕ, zero, suc, ◌+◌, ◌-◌, ◌*◌, ◌/◌, ◌%◌, ◌≤◌, ◌<◌, max, String, ◌≡◌, refl, sym, ap, ◌∙◌, ◌≢◌, ◌↔◌,
  ◌⊎◌, inl, inr, Bool, true, false, not, ◌&&◌, ◌||◌, Option, none, some, List, [], ◌∷◌, ◌++◌, map,
  arith, ltb, leb, nat_beq, if◌then◌else◌, nat_beq_iff, ltb→lt, leb→le, Bool-cases, Option-cases,
  is_some, Eq, ◌==◌, Bytes, bytes_beq, bytes_beq_iff, pair_beq, nat_eq, bytes_eq, pair_eq, beq_refl,
  length, is_nil, drop, any, all, keep, count_if, contains, any-append, all-append, length-append,
  contains-append, contains-keep, all-contains,
}
use vps_scaffold_auth.Common.Text.{
  codes, is_space, lower, to_lower, trim_left, trim_right, trim_space, last_index, cons_head,
  split_by, split, fields_func, join, cut, has_prefix, has_suffix, trim_prefix,
}
use vps_scaffold_auth.Common.Table.{
  Table, lookup, delete, insert, lookup-delete, lookup-insert, length-delete-le, length-insert-le,
  keep_value, filter_values, IsKeyed, lookup-filter_values, filter_values-IsKeyed, insert-IsKeyed,
  delete-IsKeyed, length-insert_present, length-insert_absent, filter_keys, lookup-filter_keys,
}
use vps_scaffold_auth.Authz.Roles.{role_deny}
use vps_scaffold_auth.Authz.Groups.{build_groups}
use vps_scaffold_auth.Authz.Access.{can_access_app}
use vps_scaffold_auth.Session.{
  Identity, Grant, session_cookie, kind_normal, kind_break_glass, kind_guest,
}
use vps_scaffold_auth.Session.Cookies.{Request, Response, cookies_named}
use vps_scaffold_auth.Session.Manager.{
  Manager, issue_session_grant, session_ttl, needs_renew, clear_session,
}
use vps_scaffold_auth.Server.Cutoffs.{World, read_live_session, groups_stale}
use vps_scaffold_auth.Server.Sends.{second_of}
use vps_scaffold_auth.Server.Recheck.{GroupRecheck, fresh, confirm}
use vps_scaffold_auth.Server.Tier.{
  Gateway, Directory, tier_role, renewal_role, tier_stale, policy_withdrawn, wants_admin_step,
  known_session_kind, guest_groups_now, compute_groups, passkey_still_valid,
}
use vps_scaffold_auth.Server.Policy.{Requirement, parse_policy}

pub record VerifyRequest : Type 0 where
  pub cookies : Request
  pub policy : Bytes  -- the X-Auth-Policy header
  pub host : Bytes  -- the X-Forwarded-Host header

-- Where the request is sent: on to the site with the person's address and groups, or to a page.
pub data Verdict : Type 0 where
  passed : Bytes → Bytes → Verdict
  to_login : Verdict
  to_denied : Verdict
  to_step_up : Verdict

pub record Visit : Type 0 where
  pub email : Bytes
  pub host : Bytes
  pub kind : Bytes

pub record Reply : Type 0 where
  pub verdict : Verdict
  pub cookies : Response
  pub audit : List Visit

abbrev pub sent : Verdict → Response → Reply
sent v c = record { verdict = v; cookies = c; audit = [] }

abbrev pub renewal_grant : Identity → Grant
renewal_grant id = record {
  kind = id.kind;
  totp = id.totp;
  pk = id.pk;
  auth = if id.auth == 0 then 1 else id.auth;
  card = id.card;
  step = id.step;
}

-- the groups a renewal gives, which the caller may have read
unfoldable pub renewed_groups : Gateway → Directory → Identity → ℕ → Option Bytes → Bytes
renewed_groups g d id now none =
    compute_groups g d id.email (tier_role g (some id) (renewal_role g id) now)
renewed_groups g d id now (some read) = read

-- `none` where the session is cleared and the request sent to sign in
unfoldable pub renew_session_with :
    Gateway → Directory → Response → Identity → ℕ → Option Bytes → Response × Option Identity
renew_session_with g d w id now groups =
    if renewal_role g id == role_deny
    then (clear_session g.manager w, none)
    else if not (passkey_still_valid d id)
    then (clear_session g.manager w, none)
    else (let current = renewed_groups g d id now groups in
        (
          issue_session_grant g.manager w id.email current (renewal_grant id)
              (session_ttl g.manager id) now,
          some (record id { groups = current }),
        ))

unfoldable pub current_groups : Gateway → Directory → Identity → ℕ → Bytes
current_groups g d id now =
    if renewal_role g id == role_deny
    then []
    else compute_groups g d id.email (tier_role g (some id) (renewal_role g id) now)

unfoldable pub admits : Identity → Requirement → Bool
admits id p =
    can_access_app id.email id.groups (id.kind == kind_break_glass) (id.kind == kind_guest)
      p.domains p.groups p.allow_guests

abbrev pub pass : VerifyRequest → Identity → Response → Reply
pass r id c = record {
  verdict = passed id.email id.groups;
  cookies = c;
  audit = record { email = id.email; host = r.host; kind = id.kind } ∷ [];
}

-- the refusal path that reads the groups again; the memory of it is kept in nanoseconds
unfoldable pub recheck_groups :
    Gateway
    → Directory
    → World
    → VerifyRequest
    → Identity
    → Requirement
    → Response
    → ℕ
    → World × Reply
recheck_groups g d w r id p c now =
    let current = current_groups g d id (second_of now) in
    if current == id.groups
    then (
      record w {
        group_recheck = confirm w.group_recheck id.email id.groups now w.group_recheck.gen;
      },
      sent to_denied c,
    )
    else (let (c', renewed) =
          renew_session_with g d c id (second_of now)
            (if is_nil current then none else some current) in
        elim renewed [
          | none ↦ (w, sent to_login c')
          | some id' ↦ (w, if admits id' p then pass r id' c' else sent to_denied c')
        ])

-- whether the refusal path denies at once
unfoldable pub refused_at_once : World → Identity → Requirement → Bool → ℕ → Bool
refused_at_once w id p renewed now =
    renewed
    || ((not (id.kind == kind_normal) && not (id.kind == kind_guest))
        || (is_nil (trim_space p.groups) || fresh w.group_recheck id.email id.groups now))

unfoldable pub check_access :
    Gateway
    → Directory
    → World
    → VerifyRequest
    → Identity
    → Requirement
    → Bool
    → Response
    → ℕ
    → World × Reply
check_access g d w r id p renewed c now =
    if admits id p
    then (w, pass r id c)
    else if wants_admin_step g d id p.groups (second_of now)
    then (w, sent to_step_up c)
    else if refused_at_once w id p renewed now
    then (w, sent to_denied c)
    else recheck_groups g d w r id p c now

-- the groups the request is decided on: a guest's are filtered again
unfoldable pub with_groups_now : Gateway → Directory → Identity → Identity
with_groups_now g d id =
    if id.kind == kind_guest then record id { groups = guest_groups_now g d id } else id

unfoldable pub apply_policy :
    Gateway → Directory → World → VerifyRequest → Identity → Bool → Response → ℕ → World × Reply
apply_policy g d w r id renewed c now = elim (parse_policy r.policy) [
  | none ↦ (w, sent to_denied c)
  | some p ↦ check_access g d w r (with_groups_now g d id) p renewed c now
]

unfoldable pub renewal_due : Gateway → World → Identity → ℕ → Bool
renewal_due g w id now =
    needs_renew g.manager id now
    || (groups_stale w.cutoffs id || (tier_stale g id now || policy_withdrawn g id))

unfoldable pub verify_session :
    Gateway → Directory → World → VerifyRequest → Identity → ℕ → World × Reply
verify_session g d w r id now =
    if not (known_session_kind id.kind)
    then (w, sent to_login (clear_session g.manager []))
    else if renewal_due g w id (second_of now)
    then (let (c, renewed) = renew_session_with g d [] id (second_of now) none in
        elim renewed [
          | none ↦ (w, sent to_login c)
          | some id' ↦ apply_policy g d w r id' true c now
        ])
    else apply_policy g d w r id false [] now

unfoldable pub handle_verify : Gateway → Directory → World → VerifyRequest → ℕ → World × Reply
handle_verify g d w r now =
    elim (read_live_session g.manager g.session_max_age w.cutoffs r.cookies (second_of now)) [
      | none ↦ (
        w,
        sent to_login (
            if nat_beq (length (cookies_named session_cookie r.cookies)) 1
            then clear_session g.manager []
            else []),
      )
      | some id ↦ verify_session g d w r id now
    ]
