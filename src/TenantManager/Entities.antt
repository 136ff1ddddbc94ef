-- ===== src/TenantManager/Entities.antt =====
-- The entities of services/tenant-manager: Tenant, Plan, FeatureDefinition, TenantFeature; the
-- events it publishes, and the bodies of its requests. A date is its number of milliseconds.
use saas_chassis.Prelude.{ℕ, String, Bool, Option, List}

pub data TenantStatus : Type 0 where
  provisioning active suspended cancelled past_due archived : TenantStatus

pub record Tenant : Type 0 where
  pub id : String
  pub name : String
  pub slug : String
  pub status : TenantStatus
  pub stripe_customer_id : Option String
  pub current_plan : String
  pub metadata : List (String × String)
  pub enabled_features : List String
  pub admin_email : String
  pub phone : Option String
  pub address : Option String
  pub trial_ends_at : Option ℕ
  pub suspended_at : Option ℕ
  pub cancelled_at : Option ℕ

pub record Plan : Type 0 where
  pub id : String
  pub code : String
  pub name : String
  pub description : Option String
  pub price_monthly : Option ℕ
  pub price_yearly : Option ℕ
  pub stripe_price_id_monthly : Option String
  pub stripe_price_id_yearly : Option String
  pub max_users : Option ℕ
  pub max_units : Option ℕ
  pub included_features : List String
  pub is_active : Bool
  pub sort_order : ℕ

pub record FeatureDefinition : Type 0 where
  pub id : String
  pub code : String
  pub name : String
  pub description : Option String
  pub category : String
  pub default_enabled : Bool
  pub requires_plan : Option String

pub record TenantFeature : Type 0 where
  pub tenant_id : String
  pub feature_code : String
  pub is_enabled : Bool
  pub enabled_by : Option String

pub data Message : Type 0 where
  tenant_provisioned : (tenant_id slug plan admin_email : String) → Message
  tenant_suspended : (tenant_id : String) → (reason : Option String) → Message
  tenant_plan_changed : (tenant_id old_plan new_plan : String) → Message
  tenant_feature_toggled : (tenant_id feature_code : String) → (enabled : Bool) → Message

pub record CreateTenantDto : Type 0 where
  pub name : String
  pub admin_email : String
  pub plan : Option String
  pub phone : Option String
  pub address : Option String
  pub metadata : Option (List (String × String))
  pub stripe_customer_id : Option String
  pub trial_ends_at : Option ℕ

-- A field that the request leaves out is `none`.
-- `none` is a field that the body has not; `some none` is null, in the fields that updateTenant takes
-- null for. A null in another field, which fails in the database or in toLowerCase, is left out.
pub record UpdateTenantDto : Type 0 where
  pub name : Option String
  pub admin_email : Option String
  pub plan : Option String
  pub phone : Option (Option String)
  pub address : Option (Option String)
  pub metadata : Option (List (String × String))
  pub stripe_customer_id : Option (Option String)

-- The payload of subscription-status. The status is a text: the sender's type is `string`.
pub record SubscriptionStatusPayload : Type 0 where
  pub tenant_id : String
  pub status : String
  pub plan : Option String
