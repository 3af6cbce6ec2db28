-- ===== src/Server/SignIn/Hidden.antt =====
-- What the sign-in pages show of the policy: the replies to a history of requests and attempts.
use vps_scaffold_auth.Common.{
  ℕ, ◌+◌, ◌-◌, ◌≡◌, refl, sym, ap, ◌∙◌, inl, inr, Bool, true, false, not, ◌&&◌, List, [], ◌∷◌,
  arith, if◌then◌else◌, Bool-cases, Option-cases, Bytes, nat_eq, bytes_eq, pair_eq, any,
}
use mathlib.Core.Path.{subst}
use vps_scaffold_auth.Server.SignIn.{
  SignInConfig, Outgoing, SignInState, CodeRequest, CodeAttempt, Page, Answer, not_permitted,
  signed_in, require_same_origin, declined, mint, request_code, handle_request, store_decoy_code,
  mail_saturated, mail_done, permitted, send_code, save_decoy_code,
}
use vps_scaffold_auth.Server.SignIn.Attempt.{
  give_up, record_auth, accept_login, answer_attempt, try_code, handle_verify_code, complete_login,
  served_target, login_redirect,
}
use vps_scaffold_auth.Authz.Roles.{Policy}
use vps_scaffold_auth.Session.{State}
use vps_scaffold_auth.Session.Manager.{read_state}
use vps_scaffold_auth.Server.Address.{normalize_email, valid_email}
use vps_scaffold_auth.Ratelimit.{allow}
use vps_scaffold_auth.Store.Codes.{
  save_code, has_recent_code, ConsumeResult, consume_ok, consume_no_code, consume_expired,
  consume_mismatch, consume_too_many_attempts, consume_burned,
}
use vps_scaffold_auth.Server.Tier.{Directory}
use vps_scaffold_auth.Server.Cutoffs.{SessionCutoffs, read_live_session}
use vps_scaffold_auth.Server.Sends.{Ledger, second_of, allow_send}

abbrev pub with_policy : SignInConfig → Policy → SignInConfig
with_policy c p = record c { gateway = record c.gateway { policy = p } }

-- A post to one of the two pages, and when it is answered; the sessions ended by then.
pub data Event : Type 0 where
  asks : CodeRequest → ℕ → Event
  tries : CodeAttempt → SessionCutoffs → ℕ → Event

abbrev pub answer : SignInConfig → Directory → SignInState → Event → SignInState × Answer
answer c d s (asks r now) = handle_request c s r now
answer c d s (tries r cutoffs now) = handle_verify_code c d cutoffs s r now

-- A post, or a message that has been delivered or lost, which gives its slot back.
pub data Moment : Type 0 where
  post : Event → Moment
  delivered : Moment

abbrev pub freed : SignInState → SignInState
freed s = record s { outgoing = mail_done s.outgoing }

unfoldable pub replies : SignInConfig → Directory → SignInState → List Moment → List Answer
replies c d s [] = []
replies c d s (delivered ∷ es) = replies c d (freed s) es
replies c d s (post e ∷ es) = (answer c d s e).1 ∷ replies c d (answer c d s e).0 es

-- A request for a code finds a slot for its message.
abbrev pub finds_slot : SignInState → Event → Bool
finds_slot s (asks r now) = not (mail_saturated s.outgoing)
finds_slot s (tries r cutoffs now) = true

unfoldable pub slots_left : SignInConfig → Directory → SignInState → List Moment → Bool
slots_left c d s [] = true
slots_left c d s (delivered ∷ es) = slots_left c d (freed s) es
slots_left c d s (post e ∷ es) = finds_slot s e && slots_left c d (answer c d s e).0 es

-- Two histories of the same posts, each with the deliveries of its own messages.
pub data SamePosts : List Moment → List Moment → Type 0 where
  no_more : SamePosts [] []
  both : (e : Event) {es fs : List Moment} → SamePosts es fs → SamePosts (post e ∷ es) (post e ∷ fs)
  here_only : {es fs : List Moment} → SamePosts es fs → SamePosts (delivered ∷ es) fs
  there_only : {es fs : List Moment} → SamePosts es fs → SamePosts es (delivered ∷ fs)

-- The pages that answer an accepted code.
abbrev pub opens : Page → Bool
opens (signed_in _) = true
opens (not_permitted _) = true
opens _ = false

-- Two runs reply alike and leave the same ledger.
record Alike (x y : SignInState × Answer) : Type 0 where
  ledgers : x.0.ledger ≡ y.0.ledger
  answers : x.1 ≡ y.1

if_alike :
    (b : Bool) (x y x' y' : SignInState × Answer)
    → Alike x x'
    → Alike y y'
    → Alike (if b then x else y) (if b then x' else y')
if_alike true x y x' y' h k = h
if_alike false x y x' y' h k = k

abbrev same : {x y : SignInState × Answer} → x.0.ledger ≡ y.0.ledger → x.1 ≡ y.1 → Alike x y
same h k = record { ledgers = h; answers = k }

accepted_opens :
    (c : SignInConfig) (d : Directory) (s : SignInState) (st : State) (ip rd : Bytes) (now : ℕ)
    → opens (accept_login c d s st ip rd now).1.page ≡ true
unfolding accept_login give_up complete_login
accepted_opens c d s st ip rd now = ground arith

-- the ledger that a request leaves while a slot is free: it does not ask the policy
minted_ledger : SignInConfig → Ledger → Bytes → CodeRequest → ℕ → Ledger
minted_ledger c l email r now =
    if has_recent_code l.codes email (second_of now + c.otp_ttl - c.otp_resend_cooldown)
    then l
    else (let d = allow_send l email r.ip now in
        if d.may_send
        then record d.ledger {
          codes = save_code d.ledger.codes email (c.hash_code r.code) (second_of now + c.otp_ttl);
        }
        else record d.ledger { codes = store_decoy_code c d.ledger.codes email r.code now })

minted :
    (c : SignInConfig) (s : SignInState) (email rd : Bytes) (r : CodeRequest) (now : ℕ)
    → mail_saturated s.outgoing ≡ false
    → (mint c s email rd r now).ledger ≡ minted_ledger c s.ledger email r now
unfolding mint minted_ledger send_code save_decoy_code
minted c s email rd r now h =
    elim (Bool-cases
      (has_recent_code s.ledger.codes email (second_of now + c.otp_ttl - c.otp_resend_cooldown))) [
        | inl b ↦ rw (h, b, mint, minted_ledger) refl
        | inr b ↦ elim (Bool-cases (allow_send s.ledger email r.ip now).may_send) [
          | inr d ↦ rw (h, b, d, mint, minted_ledger) refl
          | inl d ↦ elim (Bool-cases (permitted c email rd)) [
            | inl g ↦ rw (h, b, d, g, mint, minted_ledger) refl
            | inr g ↦ rw (h, b, d, g, mint, minted_ledger) refl
          ]
        ]
      ]

module _ (c : SignInConfig) (d : Directory) (p q : Policy) where
  -- what is minted shows no policy while a slot is free
  mint_alike :
      (s t : SignInState) (email rd : Bytes) (r : CodeRequest) (now : ℕ)
      → s.ledger ≡ t.ledger
      → mail_saturated s.outgoing ≡ false
      → mail_saturated t.outgoing ≡ false
      → (mint (with_policy c p) s email rd r now).ledger
        ≡ (mint (with_policy c q) t email rd r now).ledger
  unfolding minted_ledger store_decoy_code
  mint_alike s t email rd r now e h k =
      minted (with_policy c p) s email rd r now h
      ∙ ap (λ l. minted_ledger c l email r now) e
      ∙ sym (minted (with_policy c q) t email rd r now k)

  request_alike :
      (l : Ledger) (o o' : Outgoing) (r : CodeRequest) (now : ℕ)
      → mail_saturated o ≡ false
      → mail_saturated o' ≡ false
      → Alike
          (handle_request (with_policy c p) (record { ledger = l; outgoing = o }) r now)
          (handle_request (with_policy c q) (record { ledger = l; outgoing = o' }) r now)
  unfolding handle_request request_code require_same_origin valid_email
  request_alike l o o' r now free free' = elim (Bool-cases (require_same_origin c r.from)) [
    | inr a ↦ rw (a, handle_request) (same refl refl)
    | inl a ↦ elim (Bool-cases (allow l.ip_limiter r.ip now).1) [
      | inr b ↦ rw (a, b, handle_request) (same refl refl)
      | inl b ↦ elim (Bool-cases (valid_email c.parse_address (normalize_email r.email))) [
        | inr v ↦ rw (a, b, v, handle_request) (same refl refl)
        | inl v ↦
            rw (a, b, v, handle_request)
              (if_alike (declined r) _ _ _ _ (same refl refl)
                (same (mint_alike _ _ (normalize_email r.email) _ r now refl free free') refl))
      ]
    ]
  ]

  answer_alike :
      (l : Ledger) (o o' : Outgoing) (st : State) (ip rd : Bytes) (res : ConsumeResult) (now : ℕ)
      → opens
          (answer_attempt
            (with_policy c p)
            d
            (record { ledger = l; outgoing = o })
            st
            ip
            rd
            res
            now).1.page
        ≡ false
      → Alike
          (answer_attempt
            (with_policy c p)
            d
            (record { ledger = l; outgoing = o })
            st
            ip
            rd
            res
            now)
          (answer_attempt
            (with_policy c q)
            d
            (record { ledger = l; outgoing = o' })
            st
            ip
            rd
            res
            now)
  unfolding answer_attempt record_auth give_up
  answer_alike l o o' st ip rd consume_ok now h = absurd (
      ground (
        arith,
        accepted_opens (with_policy c p) d (record { ledger = l; outgoing = o }) st ip rd now,
      ))
  answer_alike l o o' st ip rd consume_mismatch now h = same refl refl
  answer_alike l o o' st ip rd consume_too_many_attempts now h = same refl refl
  answer_alike l o o' st ip rd consume_burned now h = same refl refl
  answer_alike l o o' st ip rd consume_expired now h = same refl refl
  answer_alike l o o' st ip rd consume_no_code now h = same refl refl

  try_alike :
      (l : Ledger) (o o' : Outgoing) (st : State) (r : CodeAttempt) (rd : Bytes) (now : ℕ)
      → opens
          (try_code (with_policy c p) d (record { ledger = l; outgoing = o }) st r rd now).1.page
        ≡ false
      → Alike
          (try_code (with_policy c p) d (record { ledger = l; outgoing = o }) st r rd now)
          (try_code (with_policy c q) d (record { ledger = l; outgoing = o' }) st r rd now)
  unfolding try_code
  try_alike l o o' st r rd now h = elim (Bool-cases (allow l.wrong_codes r.ip now).1) [
    | inl a ↦ rw (a, try_code) (answer_alike _ o o' st r.ip rd _ now (rw (a, try_code) at h))
    | inr a ↦ rw (a, try_code) (same refl refl)
  ]

  verify_alike :
      (l : Ledger) (o o' : Outgoing) (cutoffs : SessionCutoffs) (r : CodeAttempt) (now : ℕ)
      → opens
          (handle_verify_code
            (with_policy c p)
            d
            cutoffs
            (record { ledger = l; outgoing = o })
            r
            now).1.page
        ≡ false
      → Alike
          (handle_verify_code
            (with_policy c p)
            d
            cutoffs
            (record { ledger = l; outgoing = o })
            r
            now)
          (handle_verify_code
            (with_policy c q)
            d
            cutoffs
            (record { ledger = l; outgoing = o' })
            r
            now)
  unfolding handle_verify_code require_same_origin login_redirect served_target
  verify_alike l o o' cutoffs r now h = elim (Bool-cases (require_same_origin c r.from)) [
    | inr a ↦ rw (a, handle_verify_code) (same refl refl)
    | inl a ↦ elim (Option-cases (read_state c.gateway.manager r.cookies (second_of now))) [
      | inr (st, b) ↦
          rw (a, b, handle_verify_code)
            (try_alike l o o' st r _ now (rw (a, b, handle_verify_code) at h))
      | inl b ↦
          elim (Option-cases (
            read_live_session c.gateway.manager c.gateway.session_max_age cutoffs r.cookies
              (second_of now))) [
                | inl e ↦ rw (a, b, e, handle_verify_code) (same refl refl)
                | inr (id, e) ↦ rw (a, b, e, handle_verify_code) (same refl refl)
              ]
    ]
  ]

  event_alike :
      (s t : SignInState) (e : Event)
      → s.ledger ≡ t.ledger
      → finds_slot s e ≡ true
      → finds_slot t e ≡ true
      → opens (answer (with_policy c p) d s e).1.page ≡ false
      → Alike (answer (with_policy c p) d s e) (answer (with_policy c q) d t e)
  event_alike s t (asks r now) k free free' h =
      subst
        (λ l.
          Alike (handle_request (with_policy c p) s r now)
            (handle_request (with_policy c q) (record { ledger = l; outgoing = t.outgoing }) r now))
        k (request_alike s.ledger s.outgoing t.outgoing r now (ground arith) (ground arith))
  event_alike s t (tries r cutoffs now) k free free' h =
      subst
        (λ l. Alike (handle_verify_code (with_policy c p) d cutoffs s r now) (
          handle_verify_code (with_policy c q) d cutoffs
            (record { ledger = l; outgoing = t.outgoing }) r now))
        k (verify_alike s.ledger s.outgoing t.outgoing cutoffs r now h)

  -- Whether an address is permitted does not show while mail slots are left. Take two histories of the same
  -- requests and attempts, each with deliveries of its own messages, one under each of two policies,
  -- from states with the same ledger, whatever has been mailed. If no request in either finds every mail
  -- slot in use, and no reply in the first answers an accepted code, then the replies are the same, cookies
  -- included.
  pub policy_hidden :
      (s t : SignInState) (es fs : List Moment)
      → SamePosts es fs
      → s.ledger ≡ t.ledger
      → slots_left (with_policy c p) d s es ≡ true
      → slots_left (with_policy c q) d t fs ≡ true
      → any (λ (a : Answer). opens a.page) (replies (with_policy c p) d s es) ≡ false
      → replies (with_policy c p) d s es ≡ replies (with_policy c q) d t fs
  unfolding replies slots_left
  policy_hidden s t _ _ no_more h l l' k = refl
  policy_hidden s t _ _ (both e {es} {fs} posts) h l l' k =
      let one = event_alike s t e h (ground arith) (ground arith) (ground arith) in
      rw
        (
          one.answers,
          policy_hidden (answer (with_policy c p) d s e).0 (answer (with_policy c q) d t e).0 es fs
              posts one.ledgers (ground arith) (ground arith) (ground arith),
        )
        refl
  policy_hidden s t _ _ (here_only {es} {fs} posts) h l l' k =
      policy_hidden (freed s) t es fs posts h l l' k
  policy_hidden s t _ _ (there_only {es} {fs} posts) h l l' k =
      policy_hidden s (freed t) es fs posts h l l' k
