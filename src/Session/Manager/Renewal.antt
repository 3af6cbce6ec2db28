-- ===== src/Session/Manager/Renewal.antt =====
-- What a session cookie is read back as.
use vps_scaffold_auth.Common.{
  ℕ, ◌+◌, ◌≡◌, refl, sym, ◌∙◌, ◌↔◌, inl, inr, Bool, true, not, ◌&&◌, Option, none, some, List, [],
  ◌∷◌, arith, leb, if◌then◌else◌, Option-cases, ◌==◌, Bytes, nat_eq, bytes_eq, pair_eq, beq_refl,
  is_nil, any,
}
use vps_scaffold_auth.Session.{Identity, Grant, session_cookie, typ_session}
use vps_scaffold_auth.Session.Token.{decode}
use vps_scaffold_auth.Session.Token.Purpose.{encode_ne_nil, is_plain, decode-encode}
use vps_scaffold_auth.Session.Cookies.{Request, Response, SetCookie, cookies_named, only_cookie}
use vps_scaffold_auth.Session.Manager.{
  Manager, set_cookie, clear_cookie, granted_identity, chosen_ttl, issue_session_grant,
  read_session,
}

-- what the loop has after the cookies of the name, from what it had before
abbrev single : Option Bytes → List Bytes → Option Bytes
single found [] = found
single none (v ∷ []) = some v
single none (v ∷ u ∷ vs) = none
single (some x) (v ∷ vs) = none

only_cookie-single :
    (found : Option Bytes) (name : Bytes) (r : Request)
    → only_cookie found name r ≡ single found (cookies_named name r)
unfolding only_cookie cookies_named
only_cookie-single found name [] = refl
only_cookie-single none name ((n, v) ∷ r) =
    ground (arith, only_cookie-single none name r, only_cookie-single (some v) name r)
only_cookie-single (some x) name ((n, v) ∷ r) = ground (arith, only_cookie-single (some x) name r)

single-some : (l : List Bytes) (v : Bytes) → single none l ≡ some v → l ≡ v ∷ []
single-some [] v h = cc
single-some (x ∷ []) v h = ground arith
single-some (x ∷ y ∷ l) v h = cc

-- A session is read only from a request with exactly one cookie of the session's name, and only if
-- that cookie's token is a session token that has not expired.
pub read_session_iff :
    (m : Manager) (r : Request) (now : ℕ) (id : Identity)
    → (read_session m r now ≡ some id) ↔ (
        (token : Bytes) × (cookies_named session_cookie r ≡ token ∷ [])
        × (decode m.codec m.codec.identity_json typ_session token now ≡ some id))
unfolding read_session
read_session_iff m r now id = (
  λ h. elim (Option-cases (only_cookie none session_cookie r)) [
    | inl e ↦ ground arith
    | inr (token, e) ↦ (
      token,
      single-some (cookies_named session_cookie r) token
          (sym (only_cookie-single none session_cookie r) ∙ e),
      ground arith,
    )
  ],
  λ (token, only, d). ground (arith, only_cookie-single none session_cookie r),
)

-- The value of the latest cookie set.
abbrev pub latest_value : Response → Bytes
latest_value [] = []
latest_value (c ∷ w) = c.value

-- A session cookie with a token is among the cookies set.
unfoldable pub sets_session : Response → Bool
sets_session w = any (λ (k : SetCookie). k.name == session_cookie && not (is_nil k.value)) w

pub issue-sets :
    (m : Manager) (w : Response) (email groups : Bytes) (g : Grant) (ttl now : ℕ)
    → sets_session (issue_session_grant m w email groups g ttl now) ≡ true
unfolding sets_session issue_session_grant set_cookie
issue-sets m w email groups g ttl now =
    let life = chosen_ttl m ttl in
    ground (
      arith,
      beq_refl session_cookie,
      encode_ne_nil m.codec m.codec.identity_json typ_session
          (granted_identity email groups g life now) (now + life),
    )

pub sets-clear :
    (m : Manager) (w : Response) (name domain : Bytes)
    → sets_session (clear_cookie m w name domain) ≡ sets_session w
unfolding sets_session clear_cookie
sets-clear m w name domain = ground arith

pub read-issue :
    (m : Manager) (w : Response) (email groups : Bytes) (g : Grant) (ttl now later : ℕ)
    (r : Request)
    → cookies_named session_cookie r
      ≡ latest_value (issue_session_grant m w email groups g ttl now) ∷ []
    → is_plain m.codec m.codec.identity_json typ_session
        (granted_identity email groups g (chosen_ttl m ttl) now)
        (now + chosen_ttl m ttl)
      ≡ true
    → read_session m r later ≡ (
        if leb later (now + chosen_ttl m ttl)
        then some (granted_identity email groups g (chosen_ttl m ttl) now)
        else none)
unfolding read_session issue_session_grant set_cookie
read-issue m w email groups g ttl now later r only plain =
    let life = chosen_ttl m ttl in
    let id = granted_identity email groups g life now in
    ground (
      arith,
      only_cookie-single none session_cookie r,
      decode-encode m.codec m.codec.identity_json typ_session typ_session id (now + life) later
          (λ e. cc) plain,
      beq_refl typ_session,
    )
