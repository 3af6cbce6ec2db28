-- ===== src/Server/Policy.antt =====
-- internal/server/handlers.go: `parsePolicy`, which reads the X-Auth-Policy header.
use vps_scaffold_auth.Common.{
  ℕ, ◌≡◌, refl, inl, inr, Bool, true, false, not, ◌&&◌, ◌||◌, Option, none, some, List, [], ◌∷◌,
  arith, if◌then◌else◌, Option-cases, ◌==◌, Bytes, bytes_beq, nat_eq, bytes_eq, pair_eq, is_nil,
  any,
}
use vps_scaffold_auth.Common.Text.{codes, trim_space, split, cut}

pub record Requirement : Type 0 where
  pub domains : Bytes
  pub groups : Bytes
  pub allow_guests : Bool

-- the loop's variables
pub record Reading : Type 0 where
  pub saw_any : Bool
  pub req : Requirement

abbrev pub semicolon : ℕ
semicolon = 59

abbrev equals : ℕ
equals = 61

-- `none` where the loop returns with ok false
unfoldable pub read_setting : Reading → Bytes → Bytes → Option Reading
read_setting a k v =
    if k == codes "domains"
    then (if is_nil v then none else some (record a { req = record a.req { domains = v } }))
    else if k == codes "groups"
    then (if is_nil v then none else some (record a { req = record a.req { groups = v } }))
    else if k == codes "guests"
    then (if v == codes "allow"
        then some (record a { req = record a.req { allow_guests = true } })
        else none)
    else none

unfoldable pub read_field : Reading → Bytes → Option Reading
read_field a raw =
    let field = trim_space raw in
    if is_nil field
    then some a
    else if field == codes "any"
    then some (record a { saw_any = true })
    else elim (cut equals field) [
      | none ↦ none
      | some (k, v) ↦ read_setting a (trim_space k) (trim_space v)
    ]

unfoldable pub read_fields : Reading → List Bytes → Option Reading
read_fields a [] = some a
read_fields a (f ∷ fs) = elim (read_field a f) [ none ↦ none | some b ↦ read_fields b fs ]

unfoldable pub parse_policy : Bytes → Option Requirement
parse_policy h =
    elim (read_fields
      (record { saw_any = false; req = record { domains = []; groups = []; allow_guests = false } })
      (split semicolon h)) [
        | none ↦ none
        | some a ↦
            let has_list = not (is_nil a.req.domains) || not (is_nil a.req.groups) in
            if (a.saw_any && has_list) || (not a.saw_any && not has_list) then none else some a.req
      ]

is_any : Bytes → Bool
is_any f = trim_space f == codes "any"

is_any-nil : (s : Bytes) → is_nil s ≡ true → (s == codes "any") ≡ false
unfolding bytes_beq
is_any-nil [] h = refl
is_any-nil (c ∷ s) h = absurd (ground arith)

read_setting-any :
    (a b : Reading) (k v : Bytes) → read_setting a k v ≡ some b → b.saw_any ≡ a.saw_any
unfolding read_setting
read_setting-any a b k v h = ground arith

read_field-any :
    (a b : Reading) (f : Bytes) → read_field a f ≡ some b → b.saw_any ≡ (a.saw_any || is_any f)
unfolding read_field is_any
read_field-any a b f h = elim (Option-cases (cut equals (trim_space f))) [
  | inl e ↦ ground (arith, is_any-nil (trim_space f))
  | inr ((k, v), e) ↦
      ground (arith, read_setting-any a b (trim_space k) (trim_space v), is_any-nil (trim_space f))
]

read_fields-any :
    (a b : Reading) (fs : List Bytes)
    → read_fields a fs ≡ some b
    → b.saw_any ≡ (a.saw_any || any is_any fs)
unfolding read_fields
read_fields-any a b [] h = ground arith
read_fields-any a b (f ∷ fs) h = elim (Option-cases (read_field a f)) [
  | inl e ↦ ground arith
  | inr (c, e) ↦ ground (arith, read_field-any a c f e, read_fields-any c b fs)
]

-- A header that is read as a policy without a list of domains or groups, which is the policy that
-- admits every signed-in person, has a field that is the word "any"; and one with a list has not.
pub unrestricted-any :
    (h : Bytes) (p : Requirement)
    → parse_policy h ≡ some p
    → (is_nil p.domains && is_nil p.groups)
      ≡ any (λ f. trim_space f == codes "any") (split semicolon h)
unfolding parse_policy is_any
unrestricted-any h p e =
    elim (Option-cases (
      read_fields
        (record {
          saw_any = false;
          req = record { domains = []; groups = []; allow_guests = false };
        })
        (split semicolon h))) [
          | inl q ↦ absurd (ground arith)
          | inr (a, q) ↦ ground (arith, read_fields-any _ a (split semicolon h) q)
        ]
