-- ===== src/TenantManager/Tests.antt =====
-- services/tenant-manager at concrete inputs, over tables and a Redis in memory.
mod Switches
mod Tenancy
mod Requests
mod Refined
mod Provisioning
use saas_chassis.Prelude.{String, Option, none, some, List, [], ◌∷◌, Result, ok, ◌==◌, true, false}
use saas_chassis.External.Repository.Memory
use saas_chassis.External.Redis.Memory as RedisMemory
use saas_chassis.External.Broker.{memory_broker}
use saas_chassis.TenantManager.Entities.{Tenant, TenantStatus, FeatureDefinition, TenantFeature}
use saas_chassis.TenantManager.State.{Env, World}
use saas_chassis.TenantManager.Features.Toggle.{same_feature}
use saas_chassis.TenantManager.Features.Merged.{same_definition}
use saas_chassis.TenantManager.Tenants.Lifecycle.Consistency.{same_tenant}

abbrev pub env : Env
env = record {
  tenants = Memory.memory same_tenant "t9";
  plans = Memory.memory (λ x y. x.id == y.id) "p9";
  definitions = Memory.memory same_definition "d9";
  features = Memory.memory same_feature "f9";
  redis = RedisMemory.memory;
  broker = memory_broker;
  slugify = λ s. s;
  to_lower_case = λ s. s;
  commit = λ s t. ok tt;
  identity_service_url = none;
  internal_service_token = none;
}

abbrev pub tenant : Tenant
tenant = record {
  id = "t1";
  name = "Acme";
  slug = "acme";
  status = TenantStatus.active;
  stripe_customer_id = none;
  current_plan = "free";
  metadata = [];
  enabled_features = [];
  admin_email = "a@x.io";
  phone = none;
  address = none;
  trial_ends_at = none;
  suspended_at = none;
  cancelled_at = none;
}

abbrev pub definition : FeatureDefinition
definition = record {
  id = "d1";
  code = "sms";
  name = "SMS";
  description = none;
  category = "x";
  default_enabled = true;
  requires_plan = none;
}

abbrev pub override : TenantFeature
override = record { tenant_id = "t1"; feature_code = "sms"; is_enabled = false; enabled_by = none }

abbrev pub world : World env
world = record {
  tenants = tenant ∷ [];
  plans = [];
  definitions = definition ∷ [];
  features = override ∷ [];
  redis = [];
  publisher = some [];
  requests = [];
}
