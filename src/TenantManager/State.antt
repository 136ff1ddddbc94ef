-- ===== src/TenantManager/State.antt =====
-- What tenant-manager is built over, and its state: its tables, the Redis cache, the publisher's
-- channel and the requests sent to the identity service.
use saas_chassis.Prelude.{ℕ, String, Bool, Option, List, [], ◌∷◌, ◌++◌, Result, ok, Action}
use saas_chassis.External.Repository.{Direction, Repository}
use saas_chassis.External.Redis.{Redis}
use saas_chassis.External.Broker.{Broker, Publisher, publish_message}
use saas_chassis.TenantManager.Entities.{Tenant, Plan, FeatureDefinition, TenantFeature, Message}

-- The body and headers of `POST /api/v1/memberships`.
pub record MembershipRequest : Type 0 where
  pub url : String
  pub service_token : String
  pub user_id : String
  pub tenant_id : String
  pub role : String

-- `slugify` and `to_lower_case` are the npm package and the Unicode case mapping; `commit` is the
-- outcome of the COMMIT of a transaction over two tables; the last two fields are configuration.
pub record Env : Type 1 where
  pub tenants : Repository Tenant
  pub plans : Repository Plan
  pub definitions : Repository FeatureDefinition
  pub features : Repository TenantFeature
  pub redis : Redis
  pub broker : Broker Message
  pub slugify : String → String
  pub to_lower_case : String → String
  pub commit : tenants.Store → features.Store → Result (Unit {0})
  pub identity_service_url : Option String
  pub internal_service_token : Option String

pub record World (env : Env) : Type 0 where
  pub tenants : env.tenants.Store
  pub plans : env.plans.Store
  pub definitions : env.definitions.Store
  pub features : env.features.Store
  pub redis : env.redis.Store
  pub publisher : Publisher env.broker
  pub requests : List MembershipRequest

module _ (env : Env) where
  abbrev pub find_one_tenant : (Tenant → Bool) → Action (World env) (Option Tenant)
  find_one_tenant p w = (env.tenants.find_one p w.tenants, w)

  abbrev pub find_and_count_tenants :
      (Tenant → Bool)
      → (order : List (String × Direction)) → (skip take : ℕ) → Action (World env) (List Tenant × ℕ)
  find_and_count_tenants p order skip take w =
      (env.tenants.find_and_count p order skip take w.tenants, w)

  abbrev pub save_tenant : Tenant → Action (World env) (Unit {0})
  save_tenant t w = let (r, s) = env.tenants.save t w.tenants in (r, record w { tenants = s })

  abbrev pub update_tenant : (Tenant → Bool) → (Tenant → Tenant) → Action (World env) (Unit {0})
  update_tenant p f w =
      let (r, s) = env.tenants.update p f w.tenants in (r, record w { tenants = s })

  abbrev pub new_tenant_id : Action (World env) String
  new_tenant_id w = (ok (env.tenants.new_id w.tenants), w)

  abbrev pub find_one_plan : (Plan → Bool) → Action (World env) (Option Plan)
  find_one_plan p w = (env.plans.find_one p w.plans, w)

  abbrev pub find_plans : (Plan → Bool) → Action (World env) (List Plan)
  find_plans p w = (env.plans.find p w.plans, w)

  abbrev pub find_one_definition :
      (FeatureDefinition → Bool) → Action (World env) (Option FeatureDefinition)
  find_one_definition p w = (env.definitions.find_one p w.definitions, w)

  abbrev pub find_definitions :
      (FeatureDefinition → Bool) → Action (World env) (List FeatureDefinition)
  find_definitions p w = (env.definitions.find p w.definitions, w)

  abbrev pub find_one_feature : (TenantFeature → Bool) → Action (World env) (Option TenantFeature)
  find_one_feature p w = (env.features.find_one p w.features, w)

  abbrev pub find_features : (TenantFeature → Bool) → Action (World env) (List TenantFeature)
  find_features p w = (env.features.find p w.features, w)

  abbrev pub save_feature : TenantFeature → Action (World env) (Unit {0})
  save_feature t w = let (r, s) = env.features.save t w.features in (r, record w { features = s })

  abbrev pub delete_features : (TenantFeature → Bool) → Action (World env) (Unit {0})
  delete_features p w =
      let (r, s) = env.features.delete p w.features in (r, record w { features = s })

  abbrev pub redis_get : String → Action (World env) (Option String)
  redis_get k w = (env.redis.get k w.redis, w)

  abbrev pub redis_setex : String → ℕ → String → Action (World env) (Unit {0})
  redis_setex k ttl v w =
      let (r, s) = env.redis.setex k ttl v w.redis in (r, record w { redis = s })

  abbrev pub redis_del : List String → Action (World env) (Unit {0})
  redis_del ks w = let (r, s) = env.redis.del ks w.redis in (r, record w { redis = s })

  abbrev pub redis_scan : ℕ → String → Action (World env) (ℕ × List String)
  redis_scan cursor pattern w = (env.redis.scan cursor pattern w.redis, w)

  abbrev pub publish : String → Message → Action (World env) (Unit {0})
  publish key m w = (
    ok tt,
    record w {
      publisher =
          publish_message env.broker
            (record { exchange = "chassis.tenants"; routing_key = key; message = m }) w.publisher;
    },
  )

  abbrev pub send_request : MembershipRequest → Action (World env) (Unit {0})
  send_request q w = (ok tt, record w { requests = w.requests ++ q ∷ [] })
