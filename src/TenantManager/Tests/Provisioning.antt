-- ===== src/TenantManager/Tests/Provisioning.antt =====
-- The provisioning of tenants of services/tenant-manager at concrete inputs.
use saas_chassis.Prelude.{
  ◌≡◌, refl, true, none, some, [], ◌∷◌, err, Exception, conflict, query_failed,
}
use saas_chassis.TenantManager.Entities.{Plan, CreateTenantDto}
use saas_chassis.TenantManager.State.{Env, World}
use saas_chassis.TenantManager.Plans.{find_by_code}
use saas_chassis.TenantManager.Tenants.{create_tenant}
use saas_chassis.TenantManager.Tenants.Provisioning.{create_tenant-err}
use saas_chassis.TenantManager.Tests.{env, tenant, override}

-- A database whose COMMIT finds the slug taken.
abbrev contended : Env
contended = record env { commit = λ s t. err (query_failed "23505") }

abbrev starter : Plan
starter = record {
  id = "p1";
  code = "starter";
  name = "Starter";
  description = none;
  price_monthly = some 10;
  price_yearly = some 100;
  stripe_price_id_monthly = none;
  stripe_price_id_yearly = none;
  max_users = none;
  max_units = none;
  included_features = "sms" ∷ "api" ∷ [];
  is_active = true;
  sort_order = 1;
}

abbrev before : World contended
before = record {
  tenants = tenant ∷ [];
  plans = starter ∷ [];
  definitions = [];
  features = override ∷ [];
  redis = [];
  publisher = some [];
  requests = [];
}

abbrev request : CreateTenantDto
request = record {
  name = "Zed";
  plan = some "starter";
  admin_email = "z@x.io";
  phone = none;
  address = none;
  metadata = none;
  stripe_customer_id = none;
  trial_ends_at = none;
}

abbrev taken : Exception
taken = conflict "Tenant slug 'Zed-0a1b' is already taken"

abbrev left : World contended
left = (create_tenant contended "0a1b" request "u1" before).1

refused : create_tenant contended "0a1b" request "u1" before ≡ (err taken, left)
unfolding create_tenant find_by_code
refused = refl

create_tenant-err_example :
    (left.tenants ≡ before.tenants)
    × (left.features ≡ before.features)
    × (left.publisher ≡ before.publisher)
    × (left.requests ≡ before.requests)
create_tenant-err_example =
    create_tenant-err contended "0a1b" request "u1" taken before left refused
