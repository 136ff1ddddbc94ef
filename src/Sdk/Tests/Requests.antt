-- ===== src/Sdk/Tests/Requests.antt =====
-- The middleware and the internal HTTP client of packages/chassis-sdk at concrete requests.
use saas_chassis.Prelude.{
  ℕ, ◌≡◌, ◌⊎◌, refl, true, false, none, some, [], ◌∷◌, ◌++◌, Result, ok, truthy, same_text,
}
use saas_chassis.Sdk.TenantAware.{TenantContextData, Trace, Call, release, with_tenant_context}
use saas_chassis.Sdk.TenantAware.Protocol.{protocol}
use saas_chassis.Sdk.Web.{RequestHeaders, HeaderList, platform_admin_tenant_id, context_of}
use saas_chassis.Sdk.Web.Scoped.{with_tenant_context-context_of}

abbrev answer : Trace → Call → Result (Unit {0})
answer t c = ok tt

abbrev rows : Trace → Result ℕ
rows t = ok 3

abbrev admin_headers : RequestHeaders
admin_headers = record {
  tenant_id = none;
  user_id = some "u1";
  is_platform_admin = some "true";
  request_id = none;
}

abbrev admin_context : TenantContextData
admin_context = record {
  tenant_id = platform_admin_tenant_id;
  user_id = "u1";
  is_platform_admin = true;
}

queried :
    with_tenant_context answer rows (context_of admin_headers) []
    ≡ (ok 3, protocol admin_context ++ release ∷ [])
unfolding with_tenant_context context_of
queried = refl

with_tenant_context-context_of_example :
    (c : TenantContextData) × (protocol admin_context ++ release ∷ [] ≡ protocol c ++ release ∷ [])
    × (((admin_headers.tenant_id ≡ some c.tenant_id) × (truthy admin_headers.tenant_id ≡ true))
        ⊎ ((admin_headers.is_platform_admin ≡ some "true")
            × (truthy admin_headers.tenant_id ≡ false)
            × (c.tenant_id ≡ platform_admin_tenant_id)))
    × (c.is_platform_admin ≡ same_text admin_headers.is_platform_admin (some "true"))
with_tenant_context-context_of_example =
    with_tenant_context-context_of answer rows admin_headers 3
      (protocol admin_context ++ release ∷ []) queried

abbrev forged : HeaderList
forged = ("X-Service-Token", "forged") ∷ []
