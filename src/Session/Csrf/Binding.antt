-- ===== src/Session/Csrf/Binding.antt =====
-- How long and for whom a CSRF token passes.
use vps_scaffold_auth.Common.{
  ℕ, ◌+◌, ◌≡◌, true, ◌&&◌, none, some, arith, leb, ◌==◌, Bytes, nat_eq, bytes_eq, pair_eq, beq_refl,
}
use vps_scaffold_auth.Session.{CsrfPayload, csrf_cookie, typ_csrf}
use vps_scaffold_auth.Session.Token.{encode}
use vps_scaffold_auth.Session.Token.Purpose.{encode_ne_nil, is_plain, decode-encode}
use vps_scaffold_auth.Session.Cookies.{Request, Response, cookie}
use vps_scaffold_auth.Session.Manager.{Manager}
use vps_scaffold_auth.Session.Csrf.{csrf_sub, current_csrf, ensure_csrf, verify_csrf}

-- The token that a page embeds, minted of plain values where the browser had none that served, passes
-- when it comes back with the cookie that the response left, until its lifetime has passed and while
-- the session is of the same person; and at no other time and for no other.
pub verify-ensure :
    (m : Manager) (w : Response) (r r' : Request) (nonce : Bytes) (ttl now later : ℕ)
    → current_csrf m r now ≡ none
    → is_plain m.codec m.codec.csrf_json typ_csrf
        (record { nonce = nonce; sub = csrf_sub m r now })
        (now + ttl)
      ≡ true
    → cookie csrf_cookie r' ≡ some (ensure_csrf m w r nonce ttl now).1
    → verify_csrf m r' (ensure_csrf m w r nonce ttl now).1 later
      ≡ (leb later (now + ttl) && csrf_sub m r now == csrf_sub m r' later)
unfolding ensure_csrf verify_csrf
verify-ensure m w r r' nonce ttl now later c plain e =
    let p : CsrfPayload = record { nonce = nonce; sub = csrf_sub m r now } in
    let token = encode m.codec m.codec.csrf_json typ_csrf p (now + ttl) in
    let e' = rw (c, ensure_csrf) at e in
    rw (c, ensure_csrf)
      (ground (
        arith,
        e',
        encode_ne_nil m.codec m.codec.csrf_json typ_csrf p (now + ttl),
        beq_refl token,
        beq_refl typ_csrf,
        decode-encode m.codec m.codec.csrf_json typ_csrf typ_csrf p (now + ttl) later (λ z. cc)
            plain,
      ))
