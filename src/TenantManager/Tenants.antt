-- ===== src/TenantManager/Tenants.antt =====
-- services/tenant-manager/src/modules/tenants/tenants.service.ts: reading, provisioning and
-- updating. The lifecycle operations are in the child Lifecycle.
pub mod Lifecycle
pub mod Provisioning
pub mod Rows
use saas_chassis.Prelude.{
  ℕ, ◌-◌, ◌*◌, String, ◌≡◌, refl, Bool, true, false, not, ◌&&◌, Option, none, some, List, [], ◌∷◌,
  Result, ok, err, Exception, query_failed, Action, pure, throw, ◌>>=◌, ◌>>◌, ◌==◌, required,
  for_each, try_catch, not_found, conflict, template, if◌then◌else◌, or_else, is_some, truthy, when,
}
use saas_chassis.External.Repository.{descending}
use saas_chassis.TenantManager.Entities.{
  Tenant, TenantStatus, Plan, CreateTenantDto, UpdateTenantDto, Message, tenant_provisioned,
  tenant_plan_changed,
}
use saas_chassis.TenantManager.State.{
  Env, World, MembershipRequest, find_one_tenant, find_and_count_tenants, save_tenant,
  new_tenant_id, find_one_feature, save_feature, publish, send_request,
}
use saas_chassis.TenantManager.Plans
use saas_chassis.TenantManager.Features.{
  is_override, insert_feature, replace_tenant_features, invalidate_tenant_feature_cache,
}

-- The static `planFeatures`; `none` is a missing key.
pub plan_features : String → Option (List String)
plan_features plan =
    if plan == "free"
    then some ("basic_reporting" ∷ [])
    else if plan == "starter"
    then some ("basic_reporting" ∷ "api_access" ∷ "webhooks" ∷ [])
    else if plan == "pro"
    then some ("basic_reporting" ∷ "api_access" ∷ "webhooks" ∷ "advanced_analytics" ∷ "sso" ∷ [])
    else if plan == "enterprise"
    then some (
        "basic_reporting" ∷ "api_access" ∷ "webhooks" ∷ "advanced_analytics" ∷ "sso"
        ∷ "custom_domain" ∷ "audit_logs" ∷ [])
    else none

abbrev pub has_id : String → Tenant → Bool
has_id id t = t.id == id

-- `if (field !== undefined) tenant.field = field`
abbrev pub assign {ℓ} : {A : Type ℓ} → Option A → A → A
assign none old = old
assign (some new) old = new

abbrev pub assign_nullable {ℓ} : {A : Type ℓ} → Option (Option A) → Option A → Option A
assign_nullable none old = old
assign_nullable (some new) old = new

-- `featureCodes.length > 0 ? featureCodes : (planFeatures[plan] ?? [])`
pub features_to_sync : String → List String → List String
unfolding plan_features
features_to_sync plan [] = or_else (plan_features plan) []
features_to_sync plan (c ∷ cs) = c ∷ cs

pub record PaginatedTenants : Type 0 where
  pub items : List Tenant
  pub total : ℕ
  pub page : ℕ
  pub limit : ℕ

module _ (env : Env) where
  unfoldable pub find_all : (page limit : ℕ) → Action (World env) PaginatedTenants
  find_all page limit = do
    result ←
        find_and_count_tenants env (λ _. true) (("createdAt", descending) ∷ []) ((page - 1) * limit)
          limit
    pure (record { items = result.0; total = result.1; page = page; limit = limit })

  unfoldable pub find_by_id : String → Action (World env) Tenant
  find_by_id id = do
    tenant ← find_one_tenant env (has_id id)
    required tenant (not_found (template ("Tenant with ID " ∷ id ∷ " not found" ∷ [])))

  unfoldable pub find_by_slug : String → Action (World env) Tenant
  find_by_slug slug = do
    tenant ← find_one_tenant env (λ t. t.slug == slug)
    required tenant (not_found (template ("Tenant with slug '" ∷ slug ∷ "' not found" ∷ [])))

  abbrev pub new_tenant : CreateTenantDto → (id slug plan : String) → Tenant
  new_tenant dto id slug plan = record {
    id = id;
    name = dto.name;
    slug = slug;
    status = TenantStatus.provisioning;
    stripe_customer_id = dto.stripe_customer_id;
    current_plan = plan;
    metadata = or_else dto.metadata [];
    enabled_features = [];
    admin_email = env.to_lower_case dto.admin_email;
    phone = dto.phone;
    address = dto.address;
    trial_ends_at = dto.trial_ends_at;
    suspended_at = none;
    cancelled_at = none;
  }

  -- One round of the loop of step 3b.
  abbrev pub enable_feature : String → String → String → Action (World env) (Unit {0})
  enable_feature tenant_id user code = do
    existing ← find_one_feature env (is_override tenant_id code)
    when (not (is_some existing)) (insert_feature env tenant_id user code)

  -- The body of the transaction.
  provision :
      CreateTenantDto
      → (slug plan_code : String) → Plan
      → (user : String) → Action (World env) Tenant
  provision dto slug plan_code plan user = do
    id ← new_tenant_id env
    let provisioned = new_tenant dto id slug plan_code
    save_tenant env provisioned
    for_each plan.included_features (enable_feature id user)
    let activated = record provisioned {
      enabled_features = plan.included_features;
      status = TenantStatus.active;
    }
    save_tenant env activated
    pure activated

  -- COMMIT when the body has returned; a throw or a failed COMMIT takes both tables back.
  finish : World env → Result Tenant × World env → Result Tenant × World env
  finish before (err e, w) =
      (err e, record w { tenants = before.tenants; features = before.features })
  finish before (ok t, w) = elim (env.commit w.tenants w.features) [
    | ok _ ↦ (ok t, w)
    | err e ↦ (err e, record w { tenants = before.tenants; features = before.features })
  ]

  pub transaction : Action (World env) Tenant → Action (World env) Tenant
  unfolding finish
  transaction body w = finish w (body w)

  pub slug_taken : String → Exception → Action (World env) Tenant
  slug_taken slug (query_failed code) =
      if code == "23505"
      then throw (conflict (template ("Tenant slug '" ∷ slug ∷ "' is already taken" ∷ [])))
      else throw (query_failed code)
  slug_taken slug e = throw e

  -- Step 4: the request is sent if both settings are there; its failure is only logged.
  create_owner :
      Option String → Option String → Tenant → (user : String) → Action (World env) (Unit {0})
  create_owner (some url) (some token) tenant user =
      when (truthy (some url) && truthy (some token)) (
        send_request env (record {
          url = template (url ∷ "/api/v1/memberships" ∷ []);
          service_token = token;
          user_id = user;
          tenant_id = tenant.id;
          role = "owner";
        }))
  create_owner _ _ tenant user = pure tt

  -- `uuid` is the text that `uuidv4().substring(0, 4)` gives.
  unfoldable pub create_tenant :
      (uuid : String) → CreateTenantDto → (user : String) → Action (World env) Tenant
  unfolding provision transaction slug_taken create_owner
  create_tenant uuid dto user = do
    let slug = template (env.slugify dto.name ∷ "-" ∷ uuid ∷ [])
    let plan_code = or_else dto.plan "free"
    plan ← Plans.find_by_code env plan_code
    saved ← try_catch (transaction (provision dto slug plan_code plan user)) (slug_taken slug)
    create_owner env.identity_service_url env.internal_service_token saved user
    publish env "tenant.provisioned"
        (tenant_provisioned saved.id saved.slug saved.current_plan saved.admin_email)
    pure saved

  -- The fields that a request assigns before the plan is looked at.
  abbrev pub assigned : UpdateTenantDto → Tenant → Tenant
  assigned dto t = record t {
    name = assign dto.name t.name;
    admin_email = elim dto.admin_email [ none ↦ t.admin_email | some e ↦ env.to_lower_case e ];
    phone = assign_nullable dto.phone t.phone;
    address = assign_nullable dto.address t.address;
    metadata = assign dto.metadata t.metadata;
    stripe_customer_id = assign_nullable dto.stripe_customer_id t.stripe_customer_id;
  }

  unfoldable pub change_plan :
      (fuel : ℕ) → (id plan old_plan : String) → Tenant → Action (World env) Tenant
  change_plan fuel id plan old_plan tenant = do
    new_plan ← Plans.find_by_code env plan
    let updated = record tenant {
      current_plan = plan;
      enabled_features = new_plan.included_features;
    }
    save_tenant env updated
    replace_tenant_features env id (features_to_sync plan new_plan.included_features) id
    invalidate_tenant_feature_cache env fuel id
    publish env "tenant.plan-changed" (tenant_plan_changed id old_plan plan)
    pure updated

  unfoldable pub save_and_return : Tenant → Action (World env) Tenant
  save_and_return tenant = do save_tenant env tenant; pure tenant

  unfoldable pub update_fields :
      (fuel : ℕ) → String → Option String → String → Tenant → Action (World env) Tenant
  unfolding change_plan save_and_return
  update_fields fuel id none old_plan tenant = save_and_return tenant
  update_fields fuel id (some plan) old_plan tenant =
      if plan == old_plan then save_and_return tenant else change_plan fuel id plan old_plan tenant

  -- `fuel` bounds the rounds of the cache's SCAN.
  unfoldable pub update_tenant : (fuel : ℕ) → String → UpdateTenantDto → Action (World env) Tenant
  unfolding find_by_id update_fields
  update_tenant fuel id dto = do
    tenant ← find_by_id id
    update_fields fuel id dto.plan tenant.current_plan (assigned dto tenant)
