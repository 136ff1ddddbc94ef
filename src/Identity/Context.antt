-- ===== src/Identity/Context.antt =====
-- services/identity-service/src/common: the code is that of services/tenant-manager.
use saas_chassis.Prelude.{String, Bool, Option, List, Result, Exception}
use saas_chassis.Http as Http
use saas_chassis.TenantManager.Context as Shared

-- `use` of TenantContextMiddleware
abbrev pub context_of : Shared.RequestHeaders → Option Shared.TenantContextData
context_of headers = Shared.context_of headers

-- `beforeQuery` of RlsSubscriber
abbrev pub before_query :
    Option Shared.TenantContextData → (has_runner : Bool) → List (String × String)
before_query store has_runner = Shared.before_query store has_runner

-- `handleRequest` of JwtAuthGuard
abbrev pub handle_request : {A : Type 0} → Option Exception → Option A → Result A
handle_request e user = Http.handle_request e user
