-- ===== src/Identity/Auth/Delegation.antt =====
-- services/identity-service/src/modules/auth/auth.service.ts: the tokens of impersonations. `now` is
-- the time that `Date.now()` reads.
use saas_chassis.Prelude.{
  ℕ, String, true, false, Option, none, some, List, Action, pure, ◌>>=◌, ◌==◌, or_else, when, ltb,
  find_first,
}
use saas_chassis.Identity.Entities.{User, Role, Membership, JwtPayload}
use saas_chassis.Identity.State.{Env, World, redis_setex}
use saas_chassis.Identity.Users
use saas_chassis.Identity.Users.{CreateUserDto}
use saas_chassis.Identity.Memberships.{find_by_user_id, find_by_user_and_tenant}
use saas_chassis.Identity.Auth.{
  AccessTokenResponse, role_of_membership, roles_of, permissions_of, remaining_ttl, revoked_key,
  primary_payload, access_response,
}

module _ (env : Env) where
  -- `membership ?? memberships.find((m) => m.tenantId === targetTenantId) ?? null`
  abbrev pub or_find :
      (tenant_id : String) → List Membership → Option Membership → Option Membership
  or_find tenant_id ms (some m) = some m
  or_find tenant_id ms none = find_first (λ m. m.tenant_id == tenant_id) ms

  abbrev pub impersonation_payload :
      (admin target : User) → (tenant_id : String) → Option Role → JwtPayload
  impersonation_payload admin target tenant_id role = record {
    sub = target.id;
    email = target.email;
    display_name = target.display_name;
    is_platform_admin = false;
    tenant_id = some tenant_id;
    tenant_slug = none;
    roles = roles_of role;
    permissions = permissions_of role;
    is_impersonating = true;
    real_user_id = some admin.id;
  }

  unfoldable pub issue_impersonation_token :
      (admin target : User) → (tenant_id : String) → Action (World env) String
  issue_impersonation_token admin target tenant_id = do
    membership ← find_by_user_and_tenant env target.id tenant_id
    memberships ← find_by_user_id env target.id
    role ← role_of_membership env (or_find tenant_id memberships membership)
    pure (
        env.sign (impersonation_payload admin target tenant_id role)
          (or_else env.impersonation_expiry "30m"))

  unfoldable pub revoke_impersonation_token :
      (now : ℕ) → (hash : String) → (expires_at : ℕ) → Action (World env) (Unit {0})
  revoke_impersonation_token now hash expires_at =
      when (ltb 0 (remaining_ttl now expires_at))
        (redis_setex env (revoked_key hash) (remaining_ttl now expires_at) "1")

  unfoldable pub reissue_admin_token : String → Action (World env) AccessTokenResponse
  unfolding primary_payload
  reissue_admin_token admin_user_id = do
    user ← Users.find_by_id env admin_user_id
    payload ← primary_payload env user
    pure (access_response env payload)
