-- ===== src/Server/StepUp/Taken.antt =====
-- Who is given the admin tier at the admin door.
use vps_scaffold_auth.Common.{
  ℕ, ◌-◌, ◌<◌, ◌≡◌, refl, sym, ◌∙◌, ◌↔◌, inl, inr, Bool, true, false, not, ◌||◌, Option, some, [],
  arith, if◌then◌else◌, Bool-cases, Option-cases, ◌==◌, Bytes, bytes_beq_iff, nat_eq, bytes_eq,
  pair_eq,
}
use vps_scaffold_auth.Common.Text.{trim_space}
use vps_scaffold_auth.Common.Table.{lookup, IsKeyed}
use vps_scaffold_auth.Server.StepUp.{
  StepAttempt, StepPage, step_taken, step_up_session, admin_tier_held, grant_step, answer_step,
  check_step, handle_totp, code_attempt, StepAnswer, step_grant,
}
use mathlib.Core.Path.{subst}
use vps_scaffold_auth.Server.SignIn.{SignInConfig, require_same_origin}
use vps_scaffold_auth.Authz.Roles.{role, role_admin}
use vps_scaffold_auth.Session.{Identity, kind_normal}
use vps_scaffold_auth.Session.Cookies.{Request, Response}
use vps_scaffold_auth.Session.Csrf.{verify_csrf}
use vps_scaffold_auth.Ratelimit.{allow}
use vps_scaffold_auth.Store.Totp.{totp_failure_count}
use vps_scaffold_auth.Server.Replay.{replay_key, totp_replay_window, use_code_iff}
use vps_scaffold_auth.Session.Manager.{session_ttl, issue_session_grant}
use vps_scaffold_auth.Session.Manager.Renewal.{sets_session, issue-sets}
use vps_scaffold_auth.Server.Tier.{Directory, passkey_still_valid, compute_groups}
use vps_scaffold_auth.Server.Cutoffs.{SessionCutoffs, read_live_session}
use vps_scaffold_auth.Server.AdminCode.{
  CodeReply, too_many, locked_out, wrong_code, replayed, accepted, CodeState, totp_lockout_window,
  seconds, valid_code, check_admin_code, accepted_iff,
}

abbrev pub takes_step : StepPage → Bool
takes_step (step_taken _) = true
takes_step _ = false

module _ (validate : Bytes → Bytes → ℕ → Bool) (secret_of : Bytes → Option Bytes) (c : SignInConfig)
    (d : Directory) (cutoffs : SessionCutoffs) where
  -- The step of an administrator: a live session that is a normal sign-in of one, without the tier,
  -- a form of that session, and a code that is valid, unused and within both limits.
  pub record IsStep (s : CodeState) (r : StepAttempt) (now : ℕ) : Type 0 where
    pub id : Identity
    pub from_page : require_same_origin c r.from ≡ true
    pub live :
        read_live_session c.gateway.manager c.gateway.session_max_age cutoffs r.cookies
          (seconds now)
        ≡ some id
    pub normal : id.kind ≡ kind_normal
    pub admin : role c.gateway.policy id.email ≡ role_admin
    pub passkey_kept : passkey_still_valid d id ≡ true
    pub not_held : admin_tier_held c id (seconds now) ≡ false
    pub own_form : verify_csrf c.gateway.manager r.cookies r.csrf (seconds now) ≡ true
    pub network : (allow s.wrong_codes r.ip now).1 ≡ true
    pub account :
        totp_failure_count s.failures id.email totp_lockout_window (seconds now)
        < c.otp_max_attempts
    pub valid :
        valid_code validate secret_of c.otp_max_attempts
          (code_attempt validate secret_of c d cutoffs r id now)
        ≡ true
    pub unused :
        (t : ℕ)
        → lookup (replay_key id.email (trim_space r.code)) s.replay ≡ some t
        → totp_replay_window < now - t

  abbrev IsAdminNow : Request → ℕ → Identity → Type 0
  IsAdminNow r now id =
      (read_live_session c.gateway.manager c.gateway.session_max_age cutoffs r now ≡ some id)
      × (id.kind ≡ kind_normal)
      × (role c.gateway.policy id.email ≡ role_admin)
      × (passkey_still_valid d id ≡ true)

  step_live :
      (r : Request) (now : ℕ) (id : Identity)
      → step_up_session c d cutoffs r now ≡ some id
      → IsAdminNow r now id
  unfolding step_up_session
  step_live r now id h =
      elim (Option-cases
        (read_live_session c.gateway.manager c.gateway.session_max_age cutoffs r now)) [
          | inl e ↦ absurd (ground arith)
          | inr (i, e) ↦
              elim (Bool-cases (
                not (i.kind == kind_normal)
                || (not (role c.gateway.policy i.email == role_admin)
                    || not (passkey_still_valid d i)))) [
                      | inl q ↦ absurd (ground arith)
                      | inr q ↦
                          let same : i ≡ id = ground arith in
                          let facts : IsAdminNow r now i = (
                            e,
                            (bytes_beq_iff i.kind kind_normal).0 (ground arith),
                            (bytes_beq_iff (role c.gateway.policy i.email) role_admin).0
                                (ground arith),
                            ground arith,
                          ) in
                          subst (IsAdminNow r now) same facts
                    ]
        ]

  live_step :
      (r : Request) (now : ℕ) (id : Identity)
      → read_live_session c.gateway.manager c.gateway.session_max_age cutoffs r now ≡ some id
      → id.kind ≡ kind_normal
      → role c.gateway.policy id.email ≡ role_admin
      → passkey_still_valid d id ≡ true
      → step_up_session c d cutoffs r now ≡ some id
  unfolding step_up_session
  live_step r now id h k a p = ground (
    arith,
    bytes_beq_iff id.kind kind_normal,
    bytes_beq_iff (role c.gateway.policy id.email) role_admin,
  )

  -- The answer sets a session cookie exactly when its page says that the step is taken.
  abbrev IsHonest : CodeState × StepAnswer → Type 0
  IsHonest x = takes_step x.1.page ≡ sets_session x.1.cookies

  none_set : sets_session [] ≡ false
  unfolding sets_session
  none_set = refl

  answer-IsHonest :
      (s : CodeState) (reply : CodeReply) (id : Identity) (rd : Bytes) (now : ℕ)
      → IsHonest (s, answer_step validate secret_of c d cutoffs reply id rd now)
  unfolding answer_step grant_step
  answer-IsHonest s accepted id rd now = sym (
      issue-sets c.gateway.manager [] id.email (compute_groups c.gateway d id.email role_admin)
        (step_grant id (seconds now)) (session_ttl c.gateway.manager id) (seconds now))
  answer-IsHonest s too_many id rd now = sym none_set
  answer-IsHonest s locked_out id rd now = sym none_set
  answer-IsHonest s wrong_code id rd now = sym none_set
  answer-IsHonest s replayed id rd now = sym none_set

  if_IsHonest :
      (b : Bool) (x y : CodeState × StepAnswer)
      → IsHonest x
      → IsHonest y
      → IsHonest (if b then x else y)
  if_IsHonest true x y h k = h
  if_IsHonest false x y h k = k

  handle-IsHonest :
      (s : CodeState) (r : StepAttempt) (now : ℕ)
      → IsHonest (handle_totp validate secret_of c d cutoffs s r now)
  unfolding handle_totp check_step
  handle-IsHonest s r now = elim (Bool-cases (require_same_origin c r.from)) [
    | inr a ↦ rw (a, handle_totp) (sym none_set)
    | inl a ↦ elim (Option-cases (step_up_session c d cutoffs r.cookies (seconds now))) [
      | inl e ↦ rw (a, e, handle_totp) (sym none_set)
      | inr (id, e) ↦
          rw (a, e, handle_totp)
            (if_IsHonest (admin_tier_held c id (seconds now)) _ _ (sym none_set) (
              if_IsHonest (not (verify_csrf c.gateway.manager r.cookies r.csrf (seconds now))) _ _
                (sym none_set) (answer-IsHonest s _ id _ now)))
    ]
  ]

  -- the session with the admin tier
  abbrev pub admin_session : Identity → ℕ → Response
  admin_session id now =
      issue_session_grant c.gateway.manager [] id.email
        (compute_groups c.gateway d id.email role_admin)
        (record {
          kind = kind_normal;
          totp = true;
          pk = id.pk;
          auth = if id.auth == 0 then 1 else id.auth;
          card = 0;
          step = now;
        })
        (session_ttl c.gateway.manager id) now

  by_reply :
      (reply : CodeReply) (id : Identity) (rd : Bytes) (now : ℕ)
      → (takes_step (answer_step validate secret_of c d cutoffs reply id rd now).page ≡ true) ↔ (
          (reply ≡ accepted)
          × ((answer_step validate secret_of c d cutoffs reply id rd now).cookies
              ≡ admin_session id (seconds now)))
  unfolding answer_step grant_step
  by_reply accepted id rd now = (λ h. (refl, refl), λ h. refl)
  by_reply too_many id rd now = (λ h. absurd (ground arith), λ (h, k). absurd (ground arith))
  by_reply locked_out id rd now = (λ h. absurd (ground arith), λ (h, k). absurd (ground arith))
  by_reply wrong_code id rd now = (λ h. absurd (ground arith), λ (h, k). absurd (ground arith))
  by_reply replayed id rd now = (λ h. absurd (ground arith), λ (h, k). absurd (ground arith))

  accepted_step :
      (reply : CodeReply) (id : Identity) (rd : Bytes) (now : ℕ)
      → reply ≡ accepted
      → takes_step (answer_step validate secret_of c d cutoffs reply id rd now).page ≡ true
  unfolding answer_step grant_step
  accepted_step reply id rd now e = rw e refl

  check_takes :
      (s : CodeState) (r : StepAttempt) (id : Identity) (rd : Bytes) (now : ℕ)
      → takes_step (check_step validate secret_of c d cutoffs s r id rd now).1.page ≡ true
      → ((check_admin_code validate secret_of c.otp_max_attempts s
            (code_attempt validate secret_of c d cutoffs r id now)).1
          ≡ accepted)
        × ((check_step validate secret_of c d cutoffs s r id rd now).1.cookies
            ≡ admin_session id (seconds now))
  unfolding check_step
  check_takes s r id rd now =
      (by_reply
        (check_admin_code validate secret_of c.otp_max_attempts s
          (code_attempt validate secret_of c d cutoffs r id now)).1
        id rd now).0

  check_taken :
      (s : CodeState) (r : StepAttempt) (id : Identity) (rd : Bytes) (now : ℕ)
      → (check_admin_code validate secret_of c.otp_max_attempts s
          (code_attempt validate secret_of c d cutoffs r id now)).1
        ≡ accepted
      → takes_step (check_step validate secret_of c d cutoffs s r id rd now).1.page ≡ true
  unfolding check_step
  check_taken s r id rd now = accepted_step _ id rd now

  taken-IsStep :
      (s : CodeState) (r : StepAttempt) (now : ℕ)
      → IsKeyed s.replay
      → takes_step (handle_totp validate secret_of c d cutoffs s r now).1.page ≡ true
      → (g : IsStep s r now) × ((handle_totp validate secret_of c d cutoffs s r now).1.cookies
          ≡ admin_session g.id (seconds now))
  unfolding handle_totp
  taken-IsStep s r now keyed h = elim (Bool-cases (require_same_origin c r.from)) [
    | inr a ↦ absurd (ground arith)
    | inl a ↦ elim (Option-cases (step_up_session c d cutoffs r.cookies (seconds now))) [
      | inl e ↦ absurd (ground arith)
      | inr (id, e) ↦ elim (Bool-cases (admin_tier_held c id (seconds now))) [
        | inl b ↦ absurd (ground arith)
        | inr b ↦ elim (Bool-cases (verify_csrf c.gateway.manager r.cookies r.csrf (seconds now))) [
          | inr f ↦ absurd (ground arith)
          | inl f ↦
              let (ok, session) = check_takes s r id _ now (rw (a, e, b, f, handle_totp) at h) in
              let (live, normal, admin, kept) = step_live r.cookies (seconds now) id e in
              let (net, account, valid, unused) =
                (accepted_iff validate secret_of c.otp_max_attempts s
                    (code_attempt validate secret_of c d cutoffs r id now)).0
                  ok in
              (
                record {
                  id = id;
                  from_page = a;
                  live = live;
                  normal = normal;
                  admin = admin;
                  passkey_kept = kept;
                  not_held = b;
                  own_form = f;
                  network = net;
                  account = account;
                  valid = valid;
                  unused = (use_code_iff s.replay id.email (trim_space r.code) now keyed).0 unused;
                },
                rw (a, e, b, f, handle_totp) session,
              )
        ]
      ]
    ]
  ]

  step_taken_by :
      (s : CodeState) (r : StepAttempt) (now : ℕ)
      → IsKeyed s.replay
      → IsStep s r now
      → takes_step (handle_totp validate secret_of c d cutoffs s r now).1.page ≡ true
  unfolding handle_totp
  step_taken_by s r now keyed g =
      let e = live_step r.cookies (seconds now) g.id g.live g.normal g.admin g.passkey_kept in
      rw (g.from_page, e, g.not_held, g.own_form, handle_totp)
        (check_taken s r g.id _ now (
          (accepted_iff validate secret_of c.otp_max_attempts s
              (code_attempt validate secret_of c d cutoffs r g.id now)).1
            (
              g.network,
              g.account,
              g.valid,
              (use_code_iff s.replay g.id.email (trim_space r.code) now keyed).1 g.unused,
            )))

  -- From a replay table with one row a key, the answer to a post sets a session cookie, and shows the page of
  -- the step taken, exactly for a post that is not from another site, with a live session that is an
  -- administrator's normal sign-in, whose passkey is kept and which lacks the tier, with a form of that
  -- session, and with a code that is valid, within the limits of the network and of the account, and that
  -- the account has not used within the replay window. The session is then that person's, with the
  -- groups of an administrator and the step dated now.
  pub IsStep-iff :
      (s : CodeState) (r : StepAttempt) (now : ℕ)
      → IsKeyed s.replay
      → ((sets_session (handle_totp validate secret_of c d cutoffs s r now).1.cookies ≡ true) ↔ (
          (g : IsStep s r now) × ((handle_totp validate secret_of c d cutoffs s r now).1.cookies
            ≡ admin_session g.id (seconds now))))
        × (takes_step (handle_totp validate secret_of c d cutoffs s r now).1.page
            ≡ sets_session (handle_totp validate secret_of c d cutoffs s r now).1.cookies)
  IsStep-iff s r now keyed =
      let same = handle-IsHonest s r now in
      (
        (
          λ h. taken-IsStep s r now keyed (same ∙ h),
          λ (g, session). sym same ∙ step_taken_by s r now keyed g,
        ),
        same,
      )
