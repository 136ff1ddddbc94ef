-- ===== src/TenantManager/Api.antt =====
-- services/tenant-manager/src/modules: the handlers of tenants/tenants.controller.ts,
-- features/features.controller.ts, plans/plans.controller.ts and
-- messaging/billing-events.controller.ts. A handler takes the user of the verified token.
pub mod Isolation
pub mod Paging
pub mod Access
use saas_chassis.Prelude.{
  ℕ, String, Bool, true, false, not, ◌&&◌, ◌||◌, Option, none, some, List, [], ◌∷◌, map, Result, ok,
  err, Exception, Action, pure, throw, ◌>>=◌, ◌>>◌, unless, forbidden, same_text, truthy,
}
use saas_chassis.Http.{
  JwtPayload, ApiResponse, ok_response, created_response, paginated, page_number, limit_number,
  handle_request,
}
use saas_chassis.TenantManager.Entities.{
  Tenant, TenantStatus, TenantFeature, FeatureDefinition, Plan, CreateTenantDto, UpdateTenantDto,
  SubscriptionStatusPayload,
}
use saas_chassis.TenantManager.State.{Env, World}
use saas_chassis.TenantManager.Plans
use saas_chassis.TenantManager.Features.{
  FeatureWithStatus, find_all_definitions, find_tenant_features, toggle_feature, is_feature_enabled,
}
use saas_chassis.TenantManager.Tenants.{create_tenant, find_all, find_by_id, update_tenant}
use saas_chassis.TenantManager.Tenants.Lifecycle.{
  suspend_tenant, activate_tenant, archive_tenant, handle_billing_synced,
  handle_subscription_status,
}
use saas_chassis.TenantManager.Context.{internal_service_guard}

pub record TenantResponse : Type 0 where
  pub id : String
  pub name : String
  pub slug : String
  pub status : TenantStatus
  pub current_plan : String
  pub admin_email : String
  pub phone : Option String
  pub address : Option String
  pub stripe_customer_id : Option String
  pub enabled_features : List String
  pub metadata : List (String × String)
  pub trial_ends_at : Option ℕ
  pub suspended_at : Option ℕ
  pub cancelled_at : Option ℕ

abbrev pub from_entity : Tenant → TenantResponse
from_entity tenant = record {
  id = tenant.id;
  name = tenant.name;
  slug = tenant.slug;
  status = tenant.status;
  current_plan = tenant.current_plan;
  admin_email = tenant.admin_email;
  phone = tenant.phone;
  address = tenant.address;
  stripe_customer_id = tenant.stripe_customer_id;
  enabled_features = tenant.enabled_features;
  metadata = tenant.metadata;
  trial_ends_at = tenant.trial_ends_at;
  suspended_at = tenant.suspended_at;
  cancelled_at = tenant.cancelled_at;
}

-- `user.isPlatformAdmin || user.tenantId === id`
abbrev pub may_access : JwtPayload → String → Bool
may_access user id = user.is_platform_admin || same_text user.tenant_id (some id)

module _ (env : Env) where
  unfoldable pub create :
      (uuid : String)
      → CreateTenantDto
      → JwtPayload
      → Action (World env) (ApiResponse TenantResponse)
  create uuid dto user = do
    unless user.is_platform_admin (forbidden "Only platform admins can provision tenants")
    tenant ← create_tenant env uuid dto user.sub
    pure (created_response (from_entity tenant))

  unfoldable pub find_page :
      (page limit : Option String)
      → JwtPayload
      → Action (World env) (ApiResponse (List TenantResponse))
  find_page page limit user = do
    unless user.is_platform_admin (forbidden "Only platform admins can list all tenants")
    result ← find_all env (page_number page) (limit_number limit)
    pure (paginated (map from_entity result.items) result.total result.page result.limit)

  unfoldable pub find_one : String → JwtPayload → Action (World env) (ApiResponse TenantResponse)
  find_one id user = do
    unless (may_access user id) (forbidden "Access denied to this tenant")
    tenant ← find_by_id env id
    pure (ok_response (from_entity tenant))

  unfoldable pub update :
      (fuel : ℕ)
      → String
      → UpdateTenantDto
      → JwtPayload
      → Action (World env) (ApiResponse TenantResponse)
  update fuel id dto user = do
    unless (may_access user id) (forbidden "Access denied to this tenant")
    unless (not (truthy dto.plan && not user.is_platform_admin))
        (forbidden "Only platform admins can change the subscription plan")
    tenant ← update_tenant env fuel id dto
    pure (ok_response (from_entity tenant))

  unfoldable pub suspend :
      (now : ℕ)
      → String
      → (reason : Option String) → JwtPayload
      → Action (World env) (ApiResponse TenantResponse)
  suspend now id reason user = do
    unless user.is_platform_admin (forbidden "Only platform admins can suspend tenants")
    tenant ← suspend_tenant env now id reason
    pure (ok_response (from_entity tenant))

  unfoldable pub activate : String → JwtPayload → Action (World env) (ApiResponse TenantResponse)
  activate id user = do
    unless user.is_platform_admin (forbidden "Only platform admins can activate tenants")
    tenant ← activate_tenant env id
    pure (ok_response (from_entity tenant))

  unfoldable pub remove : (fuel now : ℕ) → String → JwtPayload → Action (World env) (Unit {0})
  remove fuel now id user = do
    unless user.is_platform_admin (forbidden "Only platform admins can archive tenants")
    archive_tenant env fuel now id

  pub list_definitions : Action (World env) (ApiResponse (List FeatureDefinition))
  list_definitions = do definitions ← find_all_definitions env; pure (ok_response definitions)

  unfoldable pub list_tenant_features :
      String → JwtPayload → Action (World env) (ApiResponse (List FeatureWithStatus))
  list_tenant_features id user = do
    unless (may_access user id) (forbidden "Access denied to this tenant")
    features ← find_tenant_features env id
    pure (ok_response features)

  unfoldable pub toggle :
      (id code : String)
      → (enabled : Bool) → JwtPayload
      → Action (World env) (ApiResponse TenantFeature)
  toggle id code enabled user = do
    unless user.is_platform_admin (forbidden "Only platform admins can toggle features")
    result ← toggle_feature env id code enabled user.sub
    pure (ok_response result)

  -- The guard runs first; the answer `{ enabled }` is its one field.
  unfoldable pub check_feature :
      (token : Option String) → (id code : String) → Action (World env) (ApiResponse Bool)
  unfolding internal_service_guard
  check_feature token id code = do
    λ w. (internal_service_guard token env.internal_service_token, w)
    enabled ← is_feature_enabled env id code
    pure (ok_response enabled)

  pub list_plans : Action (World env) (ApiResponse (List Plan))
  list_plans = do plans ← Plans.find_all env; pure (ok_response plans)

  pub get_plan : String → Action (World env) (ApiResponse Plan)
  get_plan id = do plan ← Plans.find_by_id env id; pure (ok_response plan)
