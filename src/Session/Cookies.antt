-- ===== src/Session/Cookies.antt =====
-- Cookies as the manager reads and writes them. A request is its cookies, in the order sent; a
-- response is the list of its `Set-Cookie` headers, the latest first.
use vps_scaffold_auth.Common.{
  ℕ, Bool, not, Option, none, some, List, [], ◌∷◌, if◌then◌else◌, is_some, ◌==◌, Bytes, nat_eq,
  bytes_eq, pair_eq,
}

abbrev pub Request : Type 0
Request = List (Bytes × Bytes)

-- `max_age` is `none` where the code writes -1, which expires the cookie.
pub record SetCookie : Type 0 where
  pub name : Bytes
  pub value : Bytes
  pub path : Bytes
  pub domain : Bytes
  pub max_age : Option ℕ
  pub secure : Bool
  pub http_only : Bool
  pub same_site_lax : Bool

abbrev pub Response : Type 0
Response = List SetCookie

-- `r.Cookie(name)`: the first cookie of that name
unfoldable pub cookie : Bytes → Request → Option Bytes
cookie name [] = none
cookie name ((n, v) ∷ r) = if n == name then some v else cookie name r

-- the values of all cookies of that name
unfoldable pub cookies_named : Bytes → Request → List Bytes
cookies_named name [] = []
cookies_named name ((n, v) ∷ r) =
    let rest = cookies_named name r in if n == name then v ∷ rest else rest

-- the loop of `ReadSession`: `none` without one cookie of that name, or with more than one
unfoldable pub only_cookie : Option Bytes → Bytes → Request → Option Bytes
only_cookie found name [] = found
only_cookie found name ((n, v) ∷ r) =
    let next = only_cookie found name r in
    let taken = only_cookie (some v) name r in
    if not (n == name) then next else if is_some found then none else taken
