-- ===== src/Authz/Redirect/Safe.antt =====
-- Which post-login targets pass.
use vps_scaffold_auth.Common.{
  ◌≡◌, refl, ap, ◌∙◌, ◌≢◌, ◌↔◌, ◌⊎◌, inl, inr, true, false, some, [], ◌∷◌, ◌++◌, arith, Bool-cases,
  Option-cases, ◌==◌, Bytes, bytes_beq_iff, nat_eq, bytes_eq, pair_eq, is_nil,
}
use vps_scaffold_auth.Common.Text.{codes, to_lower, has_suffix, trim_prefix}
use vps_scaffold_auth.Authz.Redirect.{Url, Parser, host_in_domain, validate_redirect}

has_suffix-some : (s t : Bytes) → has_suffix s t ≡ true → (front : Bytes) × (s ≡ front ++ t)
unfolding has_suffix
has_suffix-some [] t h = ([], (bytes_beq_iff [] t).0 h)
has_suffix-some (x ∷ s) t h = elim (Bool-cases ((x ∷ s) == t)) [
  | inl q ↦ ([], (bytes_beq_iff (x ∷ s) t).0 q)
  | inr q ↦ let (front, e) = has_suffix-some s t (ground arith) in (x ∷ front, ap (◌∷◌ x) e)
]

has_suffix_of_eq : (s t : Bytes) → s ≡ t → has_suffix s t ≡ true
unfolding has_suffix
has_suffix_of_eq [] t e = (bytes_beq_iff [] t).1 e
has_suffix_of_eq (x ∷ s) t e = ground (arith, bytes_beq_iff (x ∷ s) t)

has_suffix-append : (front t : Bytes) → has_suffix (front ++ t) t ≡ true
unfolding has_suffix
has_suffix-append [] t = has_suffix_of_eq t t refl
has_suffix-append (x ∷ front) t = ground (arith, has_suffix-append front t)

-- The host is the domain, or a name below it.
abbrev pub Below : Bytes → Bytes → Type 0
Below host domain = (host ≡ domain) ⊎ ((sub : Bytes) × (host ≡ sub ++ b'.' ∷ domain))

host_in_domain_iff : (host domain : Bytes) → (host_in_domain host domain ≡ true) ↔ Below host domain
unfolding host_in_domain
host_in_domain_iff host domain = (
  λ h. elim (Bool-cases (host == domain)) [
    | inl q ↦ inl ((bytes_beq_iff host domain).0 q)
    | inr q ↦ inr (has_suffix-some host (b'.' ∷ domain) (ground arith))
  ],
  elim [
    | inl e ↦ ground (arith, bytes_beq_iff host domain)
    | inr (sub, e) ↦
        ground
          (arith, ap (λ s. has_suffix s (b'.' ∷ domain)) e, has_suffix-append sub (b'.' ∷ domain))
  ],
)

-- The configured domain, lowered and without a leading dot.
abbrev pub domain_name : Bytes → Bytes
domain_name raw = to_lower (trim_prefix raw (codes "."))

-- What makes a parsed URL a safe target.
pub record IsSafe (raw : Bytes) (u : Url) : Type 0 where
  pub https : u.scheme ≡ codes "https"
  pub no_user : u.has_user ≡ false
  pub host_ne_nil : is_nil (to_lower u.hostname) ≡ false
  pub domain_ne_nil : is_nil (domain_name raw) ≡ false
  pub on_domain : Below (to_lower u.hostname) (domain_name raw)

module _ (parse : Parser) (rd raw : Bytes) where
  validate_ok :
      (v : Bytes)
      → validate_redirect parse rd raw ≡ some v
      → (u : Url) × (parse rd ≡ some u) × (u.text ≡ v) × IsSafe raw u
  unfolding validate_redirect
  validate_ok v h = elim (Option-cases (parse rd)) [
    | inl e ↦ ground arith
    | inr (u, e) ↦ (
      u,
      e,
      ground arith,
      record {
        https = ground (arith, bytes_beq_iff u.scheme (codes "https"));
        no_user = ground arith;
        host_ne_nil = ground arith;
        domain_ne_nil = ground arith;
        on_domain = (host_in_domain_iff (to_lower u.hostname) (domain_name raw)).0 (ground arith);
      },
    )
  ]

  validate_safe :
      (u : Url)
      → rd ≢ []
      → parse rd ≡ some u
      → IsSafe raw u
      → validate_redirect parse rd raw ≡ some u.text
  unfolding validate_redirect
  validate_safe u n e safe = ground (
    arith,
    bytes_beq_iff u.scheme (codes "https"),
    (host_in_domain_iff (to_lower u.hostname) (domain_name raw)).1 safe.on_domain,
  )

  -- A target is accepted exactly when it is not empty and parses to an https URL without userinfo
  -- whose host is the configured domain or a name below it; it is then the URL's own text.
  pub validate_redirect_iff :
      (v : Bytes)
      → (validate_redirect parse rd raw ≡ some v)
        ↔ ((rd ≢ []) × ((u : Url) × (parse rd ≡ some u) × (u.text ≡ v) × IsSafe raw u))
  unfolding validate_redirect
  validate_redirect_iff v = (
    λ h. (ground arith, validate_ok v h),
    λ w. validate_safe w.1.0 w.0 w.1.1 w.1.3 ∙ ap some w.1.2,
  )
