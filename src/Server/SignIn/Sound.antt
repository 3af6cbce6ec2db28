-- ===== src/Server/SignIn/Sound.antt =====
-- Who is signed in by an emailed code, and with what session.
use vps_scaffold_auth.Common.{
  ℕ, ◌≡◌, refl, sym, ap, ◌∙◌, ◌↔◌, inl, inr, Bool, true, false, not, some, [], arith, if◌then◌else◌,
  Bool-cases, Option-cases, ◌==◌, Bytes, nat_eq, bytes_eq, pair_eq, is_nil,
}
use vps_scaffold_auth.Common.Text.{trim_space}
use vps_scaffold_auth.Server.SignIn.{
  SignInConfig, SignInState, CodeAttempt, Page, Answer, page_only, cross_origin, onward, restart,
  too_many_attempts, not_permitted, signed_in, require_same_origin,
}
use vps_scaffold_auth.Server.SignIn.Attempt.{
  give_up, accept_login, answer_attempt, try_code, handle_verify_code, complete_login, login_groups,
  login_grant, login_ttl,
}
use vps_scaffold_auth.Authz.Roles.{role_deny, login_role}
use vps_scaffold_auth.Authz.Redirect.{safe_redirect}
use vps_scaffold_auth.Session.{State, state_cookie, pending_cookie}
use vps_scaffold_auth.Session.Manager.{
  read_state, clear_state, clear_pending, clear_cookie, issue_session_grant,
}
use vps_scaffold_auth.Session.Manager.Renewal.{sets_session, issue-sets, sets-clear}
use vps_scaffold_auth.Ratelimit.{allow}
use vps_scaffold_auth.Store.Codes.{
  Code, ConsumeResult, consume_ok, consume_no_code, consume_expired, consume_mismatch,
  consume_too_many_attempts, consume_burned, consume_code,
}
use vps_scaffold_auth.Store.Codes.Outcome.{IsLive, consume_ok_iff}
use vps_scaffold_auth.Server.Tier.{Directory, is_open_host}
use vps_scaffold_auth.Server.Cutoffs.{SessionCutoffs, read_live_session}
use vps_scaffold_auth.Server.Sends.{second_of}

abbrev pub signs_in : Page → Bool
signs_in (signed_in _) = true
signs_in _ = false

abbrev pub destination : SignInConfig → CodeAttempt → State → Bytes
destination c r st =
    let posted = safe_redirect c.parse r.rd c.domain [] in
    if is_nil posted then st.redirect else posted

-- The attempt of a browser that asked for a code: it comes from the sign-in page, within the limit on
-- wrong guesses, with the code that the store holds for the address of its state cookie, and the
-- policy permits the address there.
pub record IsGenuine (c : SignInConfig) (s : SignInState) (r : CodeAttempt) (now : ℕ) : Type 0 where
  pub asked : State
  pub row : Code
  pub from_page : require_same_origin c r.from ≡ true
  pub cookie_read : read_state c.gateway.manager r.cookies (second_of now) ≡ some asked
  pub within_limit : (allow s.ledger.wrong_codes r.ip now).1 ≡ true
  pub live :
      IsLive s.ledger.codes asked.email r.ip c.otp_max_attempts c.otp_max_total_attempts
        (second_of now)
        row
  pub matches : row.code_hash ≡ c.hash_code (trim_space r.code)
  pub permitted_there :
      (login_role c.gateway.policy asked.email
          (is_open_host c.parse c.gateway (destination c r asked))
        == role_deny)
      ≡ false

accept_signs_in :
    (c : SignInConfig) (d : Directory) (s : SignInState) (st : State) (ip rd : Bytes) (now : ℕ)
    → signs_in (accept_login c d s st ip rd now).1.page
      ≡ not (login_role c.gateway.policy st.email (is_open_host c.parse c.gateway rd) == role_deny)
unfolding accept_login give_up complete_login
accept_signs_in c d s st ip rd now = ground arith

answer_signs_in :
    (c : SignInConfig) (d : Directory) (s : SignInState) (st : State) (ip rd : Bytes)
    (res : ConsumeResult) (now : ℕ)
    → signs_in (answer_attempt c d s st ip rd res now).1.page ≡ true
    → (res ≡ consume_ok)
      × ((login_role c.gateway.policy st.email (is_open_host c.parse c.gateway rd) == role_deny)
          ≡ false)
unfolding answer_attempt give_up
answer_signs_in c d s st ip rd consume_ok now h =
    (refl, ground (arith, accept_signs_in c d s st ip rd now))
answer_signs_in c d s st ip rd consume_mismatch now h = absurd (ground arith)
answer_signs_in c d s st ip rd consume_too_many_attempts now h = absurd (ground arith)
answer_signs_in c d s st ip rd consume_burned now h = absurd (ground arith)
answer_signs_in c d s st ip rd consume_expired now h = absurd (ground arith)
answer_signs_in c d s st ip rd consume_no_code now h = absurd (ground arith)

-- The answer sets a session cookie exactly when its page says that the person is signed in.
record IsHonest (x : SignInState × Answer) : Type 0 where
  page_session : signs_in x.1.page ≡ sets_session x.1.cookies

none_set : sets_session [] ≡ false
unfolding sets_session
none_set = refl

page_only-IsHonest : (s : SignInState) (p : Page) → signs_in p ≡ false → IsHonest (s, page_only p)
page_only-IsHonest s p h = record { page_session = h ∙ sym none_set }

give_up-IsHonest :
    (c : SignInConfig) (s : SignInState) (p : Page) → signs_in p ≡ false → IsHonest (s, give_up c p)
unfolding give_up clear_state
give_up-IsHonest c s p h = record {
  page_session = h ∙ sym none_set ∙ sym (sets-clear c.gateway.manager [] state_cookie []);
}

complete-IsHonest :
    (c : SignInConfig) (d : Directory) (s : SignInState) (st : State) (ip role rd : Bytes)
    (totp : Bool) (pk now : ℕ)
    → IsHonest (complete_login c d s st ip role rd totp pk now)
unfolding complete_login clear_state clear_pending
complete-IsHonest c d s st ip role rd totp pk now =
    let m = c.gateway.manager in
    let w =
      issue_session_grant m [] st.email (login_groups c d st.email role totp now)
        (login_grant role totp pk now) (login_ttl c role st.remember) (second_of now) in
    record {
      page_session = sym (
          sets-clear m (clear_cookie m w state_cookie []) pending_cookie []
          ∙ sets-clear m w state_cookie []
          ∙ issue-sets m [] st.email (login_groups c d st.email role totp now)
              (login_grant role totp pk now) (login_ttl c role st.remember) (second_of now));
    }

if_IsHonest :
    (b : Bool) (x y : SignInState × Answer)
    → IsHonest x
    → IsHonest y
    → IsHonest (if b then x else y)
if_IsHonest true x y h k = h
if_IsHonest false x y h k = k

answer-IsHonest :
    (c : SignInConfig) (d : Directory) (s : SignInState) (st : State) (ip rd : Bytes)
    (res : ConsumeResult) (now : ℕ)
    → IsHonest (answer_attempt c d s st ip rd res now)
unfolding answer_attempt accept_login
answer-IsHonest c d s st ip rd consume_ok now =
    if_IsHonest
      (login_role c.gateway.policy st.email (is_open_host c.parse c.gateway rd) == role_deny) _ _
      (give_up-IsHonest c _ (not_permitted rd) refl)
      (complete-IsHonest c d _ st ip _ rd false 0 now)
answer-IsHonest c d s st ip rd consume_mismatch now = page_only-IsHonest _ _ refl
answer-IsHonest c d s st ip rd consume_too_many_attempts now = give_up-IsHonest c _ _ refl
answer-IsHonest c d s st ip rd consume_burned now = give_up-IsHonest c _ _ refl
answer-IsHonest c d s st ip rd consume_expired now = give_up-IsHonest c _ _ refl
answer-IsHonest c d s st ip rd consume_no_code now = give_up-IsHonest c _ _ refl

try-IsHonest :
    (c : SignInConfig) (d : Directory) (s : SignInState) (st : State) (r : CodeAttempt) (rd : Bytes)
    (now : ℕ)
    → IsHonest (try_code c d s st r rd now)
unfolding try_code
try-IsHonest c d s st r rd now =
    if_IsHonest (not (allow s.ledger.wrong_codes r.ip now).1) _ _
      (page_only-IsHonest _ (too_many_attempts st.email rd) refl)
      (answer-IsHonest c d _ st r.ip rd _ now)

module _ (c : SignInConfig) (d : Directory) (cutoffs : SessionCutoffs) (s : SignInState)
    (r : CodeAttempt) (now : ℕ) where
  genuine_if : signs_in (handle_verify_code c d cutoffs s r now).1.page ≡ true → IsGenuine c s r now
  unfolding handle_verify_code try_code
  genuine_if h = elim (Bool-cases (require_same_origin c r.from)) [
    | inr a ↦ absurd (ground arith)
    | inl a ↦ elim (Option-cases (read_state c.gateway.manager r.cookies (second_of now))) [
      | inl b ↦ absurd (ground arith)
      | inr (st, b) ↦ elim (Bool-cases (allow s.ledger.wrong_codes r.ip now).1) [
        | inr e ↦ absurd (ground arith)
        | inl e ↦
            let (ok, role) =
              answer_signs_in c d _ st r.ip (destination c r st) _ now
                (rw (a, b, e, handle_verify_code, try_code) at h) in
            let (row, live, same) =
              (consume_ok_iff s.ledger.codes st.email r.ip (c.hash_code (trim_space r.code))
                  c.otp_max_attempts c.otp_max_total_attempts (second_of now)).0
                ok in
            record {
              asked = st;
              row = row;
              from_page = a;
              cookie_read = b;
              within_limit = e;
              live = live;
              matches = same;
              permitted_there = role;
            }
      ]
    ]
  ]

  -- the state that a right code leaves before the session is made
  abbrev pub charged : State → SignInState
  charged st = record s {
    ledger = record s.ledger {
      wrong_codes = (allow s.ledger.wrong_codes r.ip now).0;
      codes =
          (consume_code s.ledger.codes st.email r.ip (c.hash_code (trim_space r.code))
            c.otp_max_attempts c.otp_max_total_attempts (second_of now)).0;
    };
  }

  pub genuine_accepted :
      (g : IsGenuine c s r now)
      → handle_verify_code c d cutoffs s r now
        ≡ accept_login c d (charged g.asked) g.asked r.ip (destination c r g.asked) now
  unfolding handle_verify_code try_code answer_attempt
  genuine_accepted g =
      let ok =
        (consume_ok_iff s.ledger.codes g.asked.email r.ip (c.hash_code (trim_space r.code))
            c.otp_max_attempts c.otp_max_total_attempts (second_of now)).1
          (g.row, g.live, g.matches) in
      rw
        (
          g.from_page, g.cookie_read, g.within_limit, ok, handle_verify_code, try_code,
          answer_attempt,
        )
        refl

  honest : IsHonest (handle_verify_code c d cutoffs s r now)
  unfolding handle_verify_code
  honest = elim (Bool-cases (require_same_origin c r.from)) [
    | inr a ↦ rw (a, handle_verify_code) (page_only-IsHonest s cross_origin refl)
    | inl a ↦ elim (Option-cases (read_state c.gateway.manager r.cookies (second_of now))) [
      | inr (st, b) ↦ rw (a, b, handle_verify_code) (try-IsHonest c d s st r _ now)
      | inl b ↦
          elim (Option-cases (
            read_live_session c.gateway.manager c.gateway.session_max_age cutoffs r.cookies
              (second_of now))) [
                | inl e ↦ rw (a, b, e, handle_verify_code) (page_only-IsHonest s (restart _) refl)
                | inr (id, e) ↦
                    rw (a, b, e, handle_verify_code) (page_only-IsHonest s (onward _) refl)
              ]
    ]
  ]

  -- The answer to an attempt sets a session cookie, and shows the page of a person signed in, exactly when
  -- the attempt is genuine: it is not from another site, the client's network may try, its state
  -- cookie names an address, its code matches that address's stored code, which is live for the network,
  -- and the policy permits the address at the destination.
  pub signs_in_iff :
      ((sets_session (handle_verify_code c d cutoffs s r now).1.cookies ≡ true)
        ↔ IsGenuine c s r now)
      × (signs_in (handle_verify_code c d cutoffs s r now).1.page
          ≡ sets_session (handle_verify_code c d cutoffs s r now).1.cookies)
  signs_in_iff = (
    (
      λ h. genuine_if (honest.page_session ∙ h),
      λ g.
          sym honest.page_session
          ∙ rw (genuine_accepted g) (
              accept_signs_in c d (charged g.asked) g.asked r.ip (destination c r g.asked) now
              ∙ ap not g.permitted_there),
    ),
    honest.page_session,
  )
