-- ===== src/Identity/Api.antt =====
-- services/identity-service/src: the handlers of the controllers in modules, with their guards, and
-- common/interceptors/audit.interceptor.ts. A handler takes the user of the verified token; the
-- answers of `ApiResponseDto.ok(null, text)` have the empty payload `tt`.
pub mod Assignment
pub mod Profiles
use saas_chassis.Prelude.{
  ℕ, String, Bool, true, false, not, ◌&&◌, ◌||◌, Option, none, some, List, [], ◌∷◌, Result, ok, err,
  Action, pure, ◌>>=◌, ◌>>◌, ◌==◌, unless, when, forbidden, includes, is_some, template,
}
use saas_chassis.Http.{ApiResponse, ok_response, ok_message, created_response}
use saas_chassis.Identity.Entities.{User, Role, Permission, Membership, JwtPayload}
use saas_chassis.Identity.State.{Env, World}
use saas_chassis.Identity.Users
use saas_chassis.Identity.Users.{CreateUserDto, UpdateUserDto}
use saas_chassis.Identity.Roles
use saas_chassis.Identity.Memberships
use saas_chassis.Identity.Memberships.{CreateMembershipDto}
use saas_chassis.Identity.Auth.{
  AccessTokenResponse, TokenResponse, register, login, refresh_access_token, logout, switch_tenant,
  get_me,
}
use saas_chassis.Identity.Auth.Credentials.{local_validate}
use saas_chassis.Identity.Impersonation.{
  ImpersonateDto, Started, start_impersonation, end_impersonation,
}
use saas_chassis.Sdk.Guards.{roles_guard, permissions_guard}

-- The body of a registration or a creation; validation refuses other fields.
pub record CreateUserBody : Type 0 where
  pub email : String
  pub password : String
  pub display_name : String
  pub phone : Option String

abbrev pub of_body : CreateUserBody → CreateUserDto
of_body b = record {
  email = b.email;
  password = b.password;
  display_name = b.display_name;
  phone = b.phone;
  is_platform_admin = none;
  email_verified = none;
}

pub record AssignRoleDto : Type 0 where
  pub user_id : String
  pub tenant_id : String
  pub role_id : String

module _ (env : Env) where
  -- A guard: it does not change the state of the service.
  abbrev pub guarded : Result Bool → Action (World env) Bool
  guarded r w = (r, w)

  -- `@RequirePermission(resource, action)`
  abbrev pub require_permission : String → JwtPayload → Action (World env) Bool
  require_permission permission user =
      guarded (permissions_guard (some (permission ∷ [])) (some user))

  -- RolesController.
  pub list_roles :
      (tenant_id : Option String) → JwtPayload → Action (World env) (ApiResponse (List Role))
  list_roles tenant_id user = do
    require_permission "users:read" user
    roles ← Roles.find_all env tenant_id
    pure (ok_response roles)

  pub list_permissions : JwtPayload → Action (World env) (ApiResponse (List Permission))
  list_permissions user = do
    require_permission "users:read" user
    permissions ← Roles.find_all_permissions env
    pure (ok_response permissions)

  pub get_role : String → JwtPayload → Action (World env) (ApiResponse Role)
  get_role id user = do
    require_permission "users:read" user
    role ← Roles.find_by_id env id
    pure (ok_response role)

  unfoldable pub assign_role :
      (now : ℕ) → AssignRoleDto → JwtPayload → Action (World env) (ApiResponse Membership)
  assign_role now dto user = do
    guarded (roles_guard (some ("tenant_admin" ∷ "platform_admin" ∷ [])) (some user))
    membership ← Memberships.find_by_user_and_tenant env dto.user_id dto.tenant_id
    when (is_some membership) (Memberships.remove env dto.user_id dto.tenant_id)
    new_membership ← Memberships.create env now (record {
      user_id = dto.user_id;
      tenant_id = dto.tenant_id;
      role_id = dto.role_id;
      status = none;
    })
    pure (ok_message new_membership "Role assigned successfully")

  -- UsersController.
  unfoldable pub list_users : JwtPayload → Action (World env) (ApiResponse (List User))
  list_users user = do
    require_permission "users:read" user
    users ← Users.find_all env user.is_platform_admin user.tenant_id
    pure (ok_response users)

  unfoldable pub get_user : String → JwtPayload → Action (World env) (ApiResponse User)
  get_user id user = do
    require_permission "users:read" user
    found ← Users.find_by_id env id
    pure (ok_response found)

  unfoldable pub create_user : CreateUserBody → JwtPayload → Action (World env) (ApiResponse User)
  create_user dto user = do
    require_permission "users:write" user
    created ← Users.create env (of_body dto)
    pure (created_response created)

  unfoldable pub update_user :
      String → UpdateUserDto → JwtPayload → Action (World env) (ApiResponse User)
  update_user id dto user = do
    unless (user.sub == id || user.is_platform_admin || includes user.permissions "users:write")
        (forbidden "You can only update your own profile or must have users:write permission")
    updated ← Users.update env id dto
    pure (ok_response updated)

  unfoldable pub remove_user : String → JwtPayload → Action (World env) (ApiResponse (Unit {0}))
  remove_user id user = do
    require_permission "users:delete" user
    Users.soft_delete env id
    pure (ok_message tt "User deleted successfully")

  -- MembershipsController.
  pub list_user_memberships :
      String → JwtPayload → Action (World env) (ApiResponse (List Membership))
  list_user_memberships user_id user = do
    require_permission "users:read" user
    memberships ← Memberships.find_by_user_id env user_id
    pure (ok_response memberships)

  pub list_tenant_memberships :
      String → JwtPayload → Action (World env) (ApiResponse (List Membership))
  list_tenant_memberships tenant_id user = do
    require_permission "users:read" user
    memberships ← Memberships.find_by_tenant_id env tenant_id
    pure (ok_response memberships)

  pub create_membership :
      (now : ℕ) → CreateMembershipDto → JwtPayload → Action (World env) (ApiResponse Membership)
  create_membership now dto user = do
    require_permission "users:manage" user
    membership ← Memberships.create env now dto
    pure (created_response membership)

  pub remove_membership :
      (user_id tenant_id : String) → JwtPayload → Action (World env) (ApiResponse (Unit {0}))
  remove_membership user_id tenant_id user = do
    require_permission "users:manage" user
    Memberships.remove env user_id tenant_id
    pure (ok_message tt "Membership removed successfully")

  -- AuthController. `random` is the text that the service draws for a refresh token.
  pub register_user :
      (now : ℕ)
      → (random : String) → CreateUserBody
      → Action (World env) (ApiResponse TokenResponse)
  register_user now random dto = do
    result ← register env now random (of_body dto)
    pure (created_response result)

  -- The guard of the local strategy runs first; `forwarded ?? remote` is the address.
  pub login_user :
      (now : ℕ)
      → (random email password : String) → (forwarded remote device_info : Option String)
      → Action (World env) (ApiResponse TokenResponse)
  login_user now random email password forwarded remote device_info = do
    user ← local_validate env email password
    result ←
        login env now random user (elim forwarded [ none ↦ remote | some a ↦ some a ]) device_info
    pure (ok_message result "Login successful")

  pub refresh : (now : ℕ) → String → Action (World env) (ApiResponse AccessTokenResponse)
  refresh now refresh_token = do
    result ← refresh_access_token env now refresh_token
    pure (ok_response result)

  pub logout_user : (now : ℕ) → String → Action (World env) (ApiResponse (Unit {0}))
  logout_user now refresh_token = do
    logout env now refresh_token
    pure (ok_message tt "Logged out successfully")

  pub switch_user_tenant :
      String → JwtPayload → Action (World env) (ApiResponse AccessTokenResponse)
  switch_user_tenant tenant_id user = do
    result ← switch_tenant env user.sub tenant_id
    pure (ok_message result "Tenant switched successfully")

  pub me : JwtPayload → Action (World env) (ApiResponse User)
  me user = do profile ← get_me env user.sub; pure (ok_response profile)

  -- ImpersonationController.
  pub start_impersonating :
      (now : ℕ) → ImpersonateDto → JwtPayload → Action (World env) (ApiResponse Started)
  start_impersonating now dto user = do
    result ← start_impersonation env now user dto
    pure (ok_message result "Impersonation session started")

  pub end_impersonating :
      (now : ℕ) → JwtPayload → Action (World env) (ApiResponse AccessTokenResponse)
  end_impersonating now user = do
    result ← end_impersonation env now user
    pure (ok_message result "Impersonation session ended")
