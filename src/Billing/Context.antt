-- ===== src/Billing/Context.antt =====
-- services/billing-engine/src/common and modules/auth/jwt.strategy.ts: the code is that of
-- services/tenant-manager, but for the interceptor, which reads no route, and the secret.
use saas_chassis.Prelude.{
  String, Bool, Option, none, some, List, Result, Exception, if◌then◌else◌, or_else, truthy,
}
use saas_chassis.Http.{JwtPayload}
use saas_chassis.Http as Http
use saas_chassis.TenantManager.Context as Shared

-- `use` of TenantContextMiddleware
abbrev pub context_of : Shared.RequestHeaders → Option Shared.TenantContextData
context_of headers = Shared.context_of headers

-- `beforeQuery` of RlsSubscriber
abbrev pub before_query :
    Option Shared.TenantContextData → (has_runner : Bool) → List (String × String)
before_query store has_runner = Shared.before_query store has_runner

-- The `tenantId` that TenantContextInterceptor attaches to a request; `before` is the one it has.
abbrev pub attach_tenant : Option JwtPayload → (before : Option String) → Option String
attach_tenant none before = before
attach_tenant (some user) before = if truthy user.tenant_id then user.tenant_id else before

-- `handleRequest` of JwtAuthGuard
abbrev pub handle_request : {A : Type 0} → Option Exception → Option A → Result A
handle_request e user = Http.handle_request e user

-- The key that JwtStrategy verifies tokens with.
abbrev pub secret_or_key : (configured : Option String) → String
secret_or_key configured = or_else configured "changeme-super-secret-at-least-32-chars!!"
