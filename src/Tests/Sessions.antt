-- ===== src/Tests/Sessions.antt =====
-- Cookies written and read back with a concrete codec.
use vps_scaffold_auth.Common.{
  ◌+◌, ◌≡◌, refl, ◌≢◌, ◌↔◌, true, false, ◌&&◌, none, some, [], ◌∷◌, arith, leb, if◌then◌else◌, ◌==◌,
  Bytes, bytes_beq, nat_eq, bytes_eq, pair_eq,
}
use vps_scaffold_auth.Common.Text.{codes}
use vps_scaffold_auth.Session.{
  Identity, Grant, session_cookie, csrf_cookie, typ_session, typ_csrf, kind_normal,
}
use vps_scaffold_auth.Session.Token.{encode, decode}
use vps_scaffold_auth.Session.Token.Purpose.{decode-encode}
use vps_scaffold_auth.Session.Cookies.{Request, Response, cookie, cookies_named}
use vps_scaffold_auth.Session.Manager.{Manager, granted_identity, issue_session_grant, read_session}
use vps_scaffold_auth.Session.Manager.Renewal.{read_session_iff, latest_value, read-issue}
use vps_scaffold_auth.Session.Csrf.{csrf_sub, current_csrf, ensure_csrf, verify_csrf}
use vps_scaffold_auth.Session.Csrf.Binding.{verify-ensure}
use vps_scaffold_auth.Tests.Codecs.{test_codec}

abbrev pub ann : Bytes
ann = codes "ann@x.org"

abbrev pub test_manager : Manager
test_manager = record {
  codec = test_codec;
  ttl = 3600;
  renew = 600;
  cookie_domain = codes "x.org";
  secure = true;
}

abbrev pub first_grant : Grant
first_grant = record { kind = kind_normal; totp = false; pk = 0; auth = 0; card = 0; step = 0 }

abbrev pub identity : Identity
identity = granted_identity ann (codes "user") first_grant 3600 100

apart : typ_session ≢ []
apart = λ h. absurd (ground arith)

decode-encode_example :
    decode test_codec test_codec.identity_json typ_csrf
      (encode test_codec test_codec.identity_json typ_session identity 3700)
      200
    ≡ (if typ_session == typ_csrf && leb 200 3700 then some identity else none)
decode-encode_example =
    decode-encode test_codec test_codec.identity_json typ_session typ_csrf identity 3700 200 apart
      refl

abbrev issued : Response
issued = issue_session_grant test_manager [] ann (codes "user") first_grant 0 100

abbrev pub signed_in : Request
signed_in = (session_cookie, latest_value issued) ∷ []

read_session_iff_example : (read_session test_manager signed_in 200 ≡ some identity) ↔ (
    (token : Bytes) × (cookies_named session_cookie signed_in ≡ token ∷ [])
    × (decode test_codec test_codec.identity_json typ_session token 200 ≡ some identity))
read_session_iff_example = read_session_iff test_manager signed_in 200 identity

pub session_is_read : read_session test_manager signed_in 200 ≡ some identity
unfolding cookies_named bytes_beq
session_is_read =
    read-issue test_manager [] ann (codes "user") first_grant 0 100 200 signed_in refl refl

abbrev nonce : Bytes
nonce = codes "n1"

abbrev token : Bytes
token = (ensure_csrf test_manager [] signed_in nonce 600 200).1

abbrev with_token : Request
with_token = (csrf_cookie, token) ∷ signed_in

no_token_yet : current_csrf test_manager signed_in 200 ≡ none
unfolding current_csrf cookie bytes_beq
no_token_yet = refl

verify-ensure_example : verify_csrf test_manager with_token token 900 ≡ (
    leb 900 (200 + 600)
    && csrf_sub test_manager signed_in 200 == csrf_sub test_manager with_token 900)
unfolding cookie bytes_beq
verify-ensure_example =
    verify-ensure test_manager [] signed_in with_token nonce 600 200 900 no_token_yet refl refl
