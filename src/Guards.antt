-- ===== src/Guards.antt =====
-- The guards of common/guards that read an access token or a shared key: AdminGuard, JwtAuthGuard,
-- RolesGuard and InternalGuard. A guard replies the payload that it puts into the request. What
-- `extractBearerToken` has made of the header is an argument, and so are the two environment
-- variables; `verify` is that of the tokens of the framework.
pub mod Roles
use text.Mathlib.Text.{◌==◌ as str_eq}
use kigali_pack.Base.{
  ℕ, Bool, true, false, ◌&&◌, ◌||◌, not, Option, none, some, List, [], ◌∷◌, String, ◌==◌,
  if◌then◌else◌,
}
use kigali_pack.Service.{Result, ok, err, Exception, unauthorized, forbidden}
use kigali_pack.Data.{OrganizationRole, JwtPayload}

abbrev role_number : OrganizationRole → ℕ
role_number OrganizationRole.master_admin = 0
role_number OrganizationRole.owner = 1
role_number OrganizationRole.admin = 2
role_number OrganizationRole.developer = 3
role_number OrganizationRole.viewer = 4
role_number OrganizationRole.org_owner = 5
role_number OrganizationRole.org_member = 6

abbrev pub same_role : OrganizationRole → OrganizationRole → Bool
same_role a b = role_number a == role_number b

-- `roles.includes(role)`
abbrev pub includes : List OrganizationRole → OrganizationRole → Bool
includes [] role = false
includes (r ∷ roles) role = same_role r role || includes roles role

-- A role without an entry stands for itself.
abbrev pub role_aliases : OrganizationRole → List OrganizationRole
role_aliases OrganizationRole.master_admin = OrganizationRole.master_admin ∷ []
role_aliases OrganizationRole.owner = OrganizationRole.owner ∷ OrganizationRole.org_owner ∷ []
role_aliases OrganizationRole.org_owner = OrganizationRole.owner ∷ OrganizationRole.org_owner ∷ []
role_aliases OrganizationRole.admin = OrganizationRole.admin ∷ []
role_aliases OrganizationRole.developer = OrganizationRole.developer ∷ []
role_aliases OrganizationRole.viewer = OrganizationRole.viewer ∷ OrganizationRole.org_member ∷ []
role_aliases OrganizationRole.org_member =
    OrganizationRole.viewer ∷ OrganizationRole.org_member ∷ []

unfoldable pub role_matches : OrganizationRole → OrganizationRole → Bool
role_matches member_role required = includes (role_aliases required) member_role

abbrev pub some_matches : OrganizationRole → List OrganizationRole → Bool
some_matches member_role [] = false
some_matches member_role (r ∷ required) =
    role_matches member_role r || some_matches member_role required

-- `RolesGuard.canActivate`, for the payload that an earlier guard has put into the request.
unfoldable pub roles_guard : List OrganizationRole → Option JwtPayload → Result (Unit {0})
roles_guard [] member = ok tt
roles_guard (r ∷ required) none = err unauthorized
roles_guard (r ∷ required) (some payload) =
    if some_matches payload.role (r ∷ required) then ok tt else err forbidden

-- `JwtAuthGuard.canActivate`
unfoldable pub jwt_auth_guard :
    (String → Option JwtPayload) → Bool → Option String → Result (Option JwtPayload)
jwt_auth_guard verify true token = ok none
jwt_auth_guard verify false none = err unauthorized
jwt_auth_guard verify false (some token) = elim (verify token) [
  | none ↦ err unauthorized
  | some payload ↦ ok (some payload)
]

abbrev pub is_admin_role : OrganizationRole → Bool
is_admin_role role =
    same_role role OrganizationRole.master_admin
    || (same_role role OrganizationRole.admin
        || (same_role role OrganizationRole.owner || same_role role OrganizationRole.org_owner))

-- `adminApiKey && typeof providedAdminKey === 'string' && providedAdminKey === adminApiKey`
abbrev pub same_key : Option String → Option String → Bool
same_key none provided = false
same_key (some key) none = false
same_key (some key) (some provided) = not (str_eq key "") && str_eq provided key

abbrev admitted : Option JwtPayload → Result (Option JwtPayload)
admitted none = err unauthorized
admitted (some payload) = if is_admin_role payload.role then ok (some payload) else err forbidden

abbrev by_token : (String → Option JwtPayload) → Option String → Result (Option JwtPayload)
by_token verify none = err unauthorized
by_token verify (some token) = admitted (verify token)

-- `AdminGuard.canActivate`
unfoldable pub admin_guard :
    (String → Option JwtPayload)
    → Bool
    → Option String
    → Option String
    → Option String
    → Result (Option JwtPayload)
admin_guard verify is_public admin_api_key provided token =
    if is_public || same_key admin_api_key provided then ok none else by_token verify token

-- `InternalGuard.canActivate`; `provided` is the first of the two headers that is there.
unfoldable pub internal_guard : Option String → Option String → Result (Unit {0})
internal_guard internal_key provided =
    if same_key internal_key provided then ok tt else err unauthorized
