-- ===== src/Tests/Access.antt =====
-- The access rules on concrete policies, groups and targets.
use vps_scaffold_auth.Common.{
  ◌≡◌, refl, ◌≢◌, ◌↔◌, ◌⊎◌, true, false, not, ◌&&◌, ◌||◌, none, some, List, [], ◌∷◌, map,
  if◌then◌else◌, ◌==◌, Bytes, nat_eq, bytes_eq, pair_eq, drop, contains,
}
use vps_scaffold_auth.Common.Text.{codes, trim_left, trim_right, trim_space, has_prefix}
use vps_scaffold_auth.Authz.Roles.{
  role_admin, role_user, role_deny, role_guest, normalize, new_policy, role, guest_eligible,
  login_role,
}
use vps_scaffold_auth.Authz.Groups.{is_reserved_group, build_groups, valid_group_name, has_group}
use vps_scaffold_auth.Authz.Access.{can_access_app}
use vps_scaffold_auth.Authz.Access.Admits.{Admits, can_access_app-Admits}
use vps_scaffold_auth.Authz.Redirect.{Url, Parser, validate_redirect}
use vps_scaffold_auth.Authz.Redirect.Safe.{IsSafe, validate_redirect_iff}
use vps_scaffold_auth.Authz.Groups.Build.{has_group-build_groups}
use vps_scaffold_auth.Authz.Roles.Config.{role-eq-admin}
use vps_scaffold_auth.Authz.Roles.Login.{login_role_cases}

abbrev ann : Bytes
ann = codes "Ann@X.org"

abbrev ann_plain : Bytes
ann_plain = codes "ann@x.org"

abbrev rota : Bytes
rota = codes "rota"

abbrev domains : List Bytes
domains = codes "x.org" ∷ []

abbrev admins : List Bytes
admins = codes "boss@y.com" ∷ []

can_access_app-Admits_example :
    (can_access_app ann (codes "user,rota") false false [] rota false ≡ true)
    ↔ Admits ann (codes "user,rota") false false [] rota false
can_access_app-Admits_example =
    can_access_app-Admits ann (codes "user,rota") false false [] rota false

break_glass_kept_out : can_access_app ann rota true false [] [] false ≡ false
unfolding can_access_app trim_space trim_left trim_right
break_glass_kept_out = refl

has_group-build_groups_example :
    has_group (build_groups role_user (rota ∷ role_admin ∷ [])) role_admin ≡ (
      role_user == role_admin
      || (contains (rota ∷ role_admin ∷ []) role_admin && not (is_reserved_group role_admin)))
unfolding valid_group_name
has_group-build_groups_example =
    has_group-build_groups role_user (rota ∷ role_admin ∷ []) role_admin refl refl

abbrev https : Bytes
https = codes "https://"

-- reads a target that is the scheme and a host
abbrev test_parse : Parser
test_parse raw =
    if has_prefix raw https
    then some
        (record { scheme = codes "https"; has_user = false; hostname = drop 8 raw; text = raw })
    else none

validate_redirect_iff_example :
    (validate_redirect test_parse (codes "https://app.x.org") (codes ".x.org")
      ≡ some (codes "https://app.x.org"))
    ↔ ((codes "https://app.x.org" ≢ [])
        × ((u : Url) × (test_parse (codes "https://app.x.org") ≡ some u)
            × (u.text ≡ codes "https://app.x.org")
            × IsSafe (codes ".x.org") u))
validate_redirect_iff_example =
    validate_redirect_iff test_parse (codes "https://app.x.org") (codes ".x.org")
      (codes "https://app.x.org")

role-eq-admin_example :
    (role (new_policy domains admins) ann ≡ role_admin)
    ↔ ((normalize ann ≢ []) × (contains (map normalize admins) (normalize ann) ≡ true))
role-eq-admin_example = role-eq-admin domains admins ann

login_role_cases_example :
    ((login_role (new_policy [] admins) ann true ≡ role (new_policy [] admins) ann)
      ⊎ ((role (new_policy [] admins) ann ≡ role_deny)
          × (login_role (new_policy [] admins) ann true ≡ role_guest)))
    × ((login_role (new_policy [] admins) ann true ≡ role_guest) ↔ (
        (role (new_policy [] admins) ann ≡ role_deny)
        × (true ≡ true)
        × (guest_eligible ann ≡ true)))
login_role_cases_example = login_role_cases (new_policy [] admins) ann true
