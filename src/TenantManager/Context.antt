-- ===== src/TenantManager/Context.antt =====
-- services/tenant-manager/src/common: the tenant context that a request runs in, the settings that
-- it gives to each query for row-level security, and the guard of the calls between services.
pub mod Settings
use saas_chassis.Prelude.{
  String, ◌≡◌, refl, Bool, true, false, not, ◌&&◌, ◌||◌, Option, none, some, List, [], ◌∷◌, Result,
  ok, err, error, unauthorized, ◌==◌, if◌then◌else◌, or_else, truthy, or_falsy, arith, same_text,
}
use saas_chassis.Http.{JwtPayload}

-- The headers that the gateway sets.
pub record RequestHeaders : Type 0 where
  pub tenant_id : Option String
  pub user_id : Option String
  pub is_platform_admin : Option String

pub record TenantContextData : Type 0 where
  pub tenant_id : String
  pub user_id : String
  pub is_platform_admin : Bool

-- `use` of TenantContextMiddleware: the context that the rest of the request runs in; with `none`
-- it runs in none.
unfoldable pub context_of : RequestHeaders → Option TenantContextData
context_of headers =
    let is_admin = same_text headers.is_platform_admin (some "true") in
    if not (truthy headers.tenant_id) && not is_admin
    then none
    else some (record {
      tenant_id = or_falsy headers.tenant_id "00000000-0000-0000-0000-000000000000";
      user_id = or_falsy headers.user_id "";
      is_platform_admin = is_admin;
    })

-- `String(b)`
abbrev pub show_bool : Bool → String
show_bool true = "true"
show_bool false = "false"

-- `beforeQuery` of RlsSubscriber: the settings that it makes, in their order.
unfoldable pub before_query : Option TenantContextData → Bool → List (String × String)
before_query none has_runner = []
before_query (some store) has_runner =
    if not (truthy (some store.tenant_id)) || not has_runner
    then []
    else (("app.current_tenant_id", store.tenant_id)
        ∷ ("app.is_platform_admin", show_bool store.is_platform_admin)
        ∷ [])

-- The `tenantId` that TenantContextInterceptor attaches to a request with this user and `id` among
-- its route parameters; `before` is the one it has.
unfoldable pub attach_tenant : Option JwtPayload → (route before : Option String) → Option String
attach_tenant none route before = if truthy route then route else before
attach_tenant (some user) route before =
    if truthy user.tenant_id
    then user.tenant_id
    else if truthy route && not user.is_platform_admin
    then route
    else before

-- `canActivate` of InternalServiceGuard; `expected` is the configured token.
unfoldable pub internal_service_guard : (token expected : Option String) → Result Bool
internal_service_guard token expected =
    if not (truthy token) || not (truthy expected)
    then err (unauthorized "Missing X-Service-Token header")
    else if not (same_text token expected)
    then err (unauthorized "Invalid X-Service-Token")
    else ok true

-- The key that JwtStrategy verifies tokens with; without one the service does not start.
pub secret_or_key : (configured : Option String) → Result String
secret_or_key none =
    err (error "JWT_SECRET is not configured. Set the JWT_SECRET environment variable.")
secret_or_key (some secret) =
    if truthy (some secret)
    then ok secret
    else err (error "JWT_SECRET is not configured. Set the JWT_SECRET environment variable.")
