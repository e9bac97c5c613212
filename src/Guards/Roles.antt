-- ===== src/Guards/Roles.antt =====
-- Which tokens the guards accept.
use kigali_pack.Base.{
  ◌≡◌, refl, ap, ◌∙◌, true, false, Option, none, some, List, [], ◌∷◌, String, if◌then◌else◌,
}
use kigali_pack.Service.{ok, err, forbidden}
use kigali_pack.Data.{OrganizationRole, JwtPayload}
use kigali_pack.Sessions.{normalize_role}
use kigali_pack.Guards.{
  role_matches, some_matches, roles_guard, is_admin_role, admin_guard, admitted,
}

-- Normalising the role of a member, as the sign-in does, changes no match.
role_matches-normalize_role :
    (member_role required : OrganizationRole)
    → role_matches (normalize_role member_role) required ≡ role_matches member_role required
unfolding role_matches normalize_role
role_matches-normalize_role OrganizationRole.master_admin required = refl
role_matches-normalize_role OrganizationRole.owner OrganizationRole.master_admin = refl
role_matches-normalize_role OrganizationRole.owner OrganizationRole.owner = refl
role_matches-normalize_role OrganizationRole.owner OrganizationRole.admin = refl
role_matches-normalize_role OrganizationRole.owner OrganizationRole.developer = refl
role_matches-normalize_role OrganizationRole.owner OrganizationRole.viewer = refl
role_matches-normalize_role OrganizationRole.owner OrganizationRole.org_owner = refl
role_matches-normalize_role OrganizationRole.owner OrganizationRole.org_member = refl
role_matches-normalize_role OrganizationRole.admin required = refl
role_matches-normalize_role OrganizationRole.developer required = refl
role_matches-normalize_role OrganizationRole.viewer OrganizationRole.master_admin = refl
role_matches-normalize_role OrganizationRole.viewer OrganizationRole.owner = refl
role_matches-normalize_role OrganizationRole.viewer OrganizationRole.admin = refl
role_matches-normalize_role OrganizationRole.viewer OrganizationRole.developer = refl
role_matches-normalize_role OrganizationRole.viewer OrganizationRole.viewer = refl
role_matches-normalize_role OrganizationRole.viewer OrganizationRole.org_owner = refl
role_matches-normalize_role OrganizationRole.viewer OrganizationRole.org_member = refl
role_matches-normalize_role OrganizationRole.org_owner required = refl
role_matches-normalize_role OrganizationRole.org_member required = refl

some_matches-normalize_role :
    (member_role : OrganizationRole) (required : List OrganizationRole)
    → some_matches (normalize_role member_role) required ≡ some_matches member_role required
some_matches-normalize_role member_role [] = refl
some_matches-normalize_role member_role (r ∷ required) =
    rw (role_matches-normalize_role member_role r, some_matches-normalize_role member_role required)

pub is_admin_role-normalize_role :
    (role : OrganizationRole) → is_admin_role (normalize_role role) ≡ is_admin_role role
unfolding normalize_role
is_admin_role-normalize_role OrganizationRole.master_admin = refl
is_admin_role-normalize_role OrganizationRole.owner = refl
is_admin_role-normalize_role OrganizationRole.admin = refl
is_admin_role-normalize_role OrganizationRole.developer = refl
is_admin_role-normalize_role OrganizationRole.viewer = refl
is_admin_role-normalize_role OrganizationRole.org_owner = refl
is_admin_role-normalize_role OrganizationRole.org_member = refl

abbrev pub normalized : JwtPayload → JwtPayload
normalized payload = record payload { role = normalize_role payload.role }

-- A sign-in through the authentication service normalises the role in the token, one through the
-- organizations does not: for no list of required roles does the guard of roles tell the two tokens
-- apart, and the guard of the admins accepts both or neither.
pub roles_guard-normalize_role :
    (payload : JwtPayload) (required : List OrganizationRole)
    → (roles_guard required (some (normalized payload)) ≡ roles_guard required (some payload))
      × (is_admin_role (normalize_role payload.role) ≡ is_admin_role payload.role)
unfolding roles_guard
roles_guard-normalize_role payload [] = (refl, is_admin_role-normalize_role payload.role)
roles_guard-normalize_role payload (r ∷ required) = (
  ap (λ b. if b then ok tt else err forbidden)
      (some_matches-normalize_role payload.role (r ∷ required)),
  is_admin_role-normalize_role payload.role,
)

-- A token of an admin is accepted.
pub admin_guard_token :
    (verify : String → Option JwtPayload) (admin_api_key : Option String) (token : String)
    (payload : JwtPayload)
    → verify token ≡ some payload
    → is_admin_role payload.role ≡ true
    → admin_guard verify false admin_api_key none (some token) ≡ ok (some payload)
unfolding admin_guard
admin_guard_token verify none token payload e role =
    ap admitted e ∙ ap (λ b. if b then ok (some payload) else err forbidden) role
admin_guard_token verify (some key) token payload e role =
    ap admitted e ∙ ap (λ b. if b then ok (some payload) else err forbidden) role
