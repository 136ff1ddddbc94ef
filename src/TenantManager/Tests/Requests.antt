-- ===== src/TenantManager/Tests/Requests.antt =====
-- The handlers of services/tenant-manager at concrete requests.
use saas_chassis.Prelude.{◌≡◌, ◌↔◌, refl, false, none, some, [], ◌∷◌, ok, arith, length, Elem}
use saas_chassis.External.Repository.Memory
use saas_chassis.External.Repository.{descending}
use saas_chassis.Http.{JwtPayload, page_number, limit_number, ceil_div, ok_response}
use saas_chassis.TenantManager.Entities.{Tenant, UpdateTenantDto}
use saas_chassis.TenantManager.State.{World}
use saas_chassis.TenantManager.Features.Toggle.{same_feature}
use saas_chassis.TenantManager.Tenants.{
  PaginatedTenants, has_id, find_all, find_by_id, update_tenant,
}
use saas_chassis.TenantManager.Tenants.Lifecycle.Consistency.{same_tenant}
use saas_chassis.TenantManager.Context.{RequestHeaders}
use saas_chassis.TenantManager.Api.{TenantResponse, from_entity, update}
use saas_chassis.TenantManager.Api.Access.{update-ok}
use saas_chassis.TenantManager.Api.Isolation.{OnlyOf, update_request, respond, respond-OnlyOf}
use saas_chassis.TenantManager.Api.Paging.{read_pages, read_pages-total}
use saas_chassis.TenantManager.Tests.{env, world, tenant}

-- A page that is no number, one of 0, and limits out of range.
bad_page : page_number (some "x") ≡ 1
unfolding page_number
bad_page = refl

zero_limit : limit_number (some "0") ≡ 20
unfolding limit_number
zero_limit = refl

negative_limit : limit_number (some " -5") ≡ 1
unfolding limit_number
negative_limit = refl

large_limit : limit_number (some "+1000rows") ≡ 100
unfolding limit_number
large_limit = refl

abbrev other_tenant : Tenant
other_tenant = record tenant { id = "t2"; slug = "other" }

abbrev two_tenants : World env
two_tenants = record world { tenants = tenant ∷ other_tenant ∷ [] }

abbrev first_page : PaginatedTenants
first_page = record { items = tenant ∷ []; total = 2; page = 1; limit = 1 }

first_page_read : find_all env 1 1 two_tenants ≡ (ok first_page, two_tenants)
unfolding find_all
first_page_read = refl

all_read :
    read_pages env (ceil_div first_page.total 1) 1 two_tenants
    ≡ (ok (tenant ∷ other_tenant ∷ []), two_tenants)
unfolding find_all
all_read = refl

read_pages-total_example :
    ((y : Tenant) → Elem y (tenant ∷ other_tenant ∷ []) ↔ env.tenants.Has two_tenants.tenants y)
    × (length (tenant ∷ other_tenant ∷ []) ≡ first_page.total)
read_pages-total_example =
    read_pages-total env (Memory.memory-IsPaged same_tenant "t9" (("createdAt", descending) ∷ [])) 1
      two_tenants two_tenants two_tenants first_page (tenant ∷ other_tenant ∷ []) (omega arith)
      first_page_read all_read

abbrev member : JwtPayload
member = record {
  sub = "u1";
  email = "u@x.io";
  tenant_id = some "t1";
  is_platform_admin = false;
  roles = none;
  permissions = none;
  is_impersonating = none;
  real_user_id = none;
}

abbrev rename : UpdateTenantDto
rename = record {
  name = some "Acme 2";
  admin_email = none;
  plan = none;
  phone = none;
  address = none;
  metadata = none;
  stripe_customer_id = none;
}

abbrev renamed : Tenant
renamed = record tenant { name = "Acme 2" }

abbrev after_rename : World env
after_rename = respond env (update_request 5 "t1" rename) member two_tenants

respond-OnlyOf_example : OnlyOf env (some "t1") two_tenants after_rename
respond-OnlyOf_example =
    respond-OnlyOf env (Memory.memory-IsTable same_tenant "t9")
      (Memory.memory-IsTable same_feature "f9") member (update_request 5 "t1" rename) two_tenants
      refl

rename_returns :
    update env 5 "t1" rename member two_tenants
    ≡ (ok (ok_response (from_entity renamed)), after_rename)
unfolding update update_tenant find_by_id
rename_returns = refl

update-ok_example :
    (member.tenant_id ≡ some "t1")
    × ((x : Tenant) × (y : TenantResponse) × (env.tenants.find_one (has_id "t1") two_tenants.tenants
          ≡ ok (some x))
        × (some (from_entity renamed) ≡ some y)
        × (y.status ≡ x.status)
        × (y.slug ≡ x.slug)
        × (y.current_plan ≡ x.current_plan)
        × (y.enabled_features ≡ x.enabled_features)
        × (y.trial_ends_at ≡ x.trial_ends_at)
        × (y.suspended_at ≡ x.suspended_at)
        × (y.cancelled_at ≡ x.cancelled_at)
        × ((z : Tenant) × (env.tenants.save z two_tenants.tenants ≡ (ok tt, after_rename.tenants))
            × (z.id ≡ x.id)
            × (z.status ≡ x.status)
            × (z.slug ≡ x.slug)
            × (z.current_plan ≡ x.current_plan)
            × (z.enabled_features ≡ x.enabled_features)
            × (z.trial_ends_at ≡ x.trial_ends_at)
            × (z.suspended_at ≡ x.suspended_at)
            × (z.cancelled_at ≡ x.cancelled_at)))
update-ok_example =
    update-ok env member "t1" two_tenants after_rename 5 rename (ok_response (from_entity renamed))
      refl (λ e. cc) rename_returns

abbrev admin_headers : RequestHeaders
admin_headers = record { tenant_id = none; user_id = none; is_platform_admin = some "true" }
