-- ===== src/Sdk/Tests.antt =====
-- packages/chassis-sdk at concrete inputs.
mod Requests
mod Audit
use saas_chassis.Prelude.{
  Option, ℕ, ◌≤◌, ◌≡◌, refl, ◌⊎◌, inr, ◌↔◌, String, true, false, none, some, [], ◌∷◌, ◌++◌, Result,
  ok, err, error, arith, take, Elem,
}
use saas_chassis.Sdk.Flags.{ChassisOptions, State, not_ok, answered}
use saas_chassis.Sdk.Flags.Caching.{IsBounded, Request, serve, serve-IsBounded}
use saas_chassis.Sdk.Guards.{Headers, says_true, sdk_permissions}
use saas_chassis.Sdk.Guards.Forwarding.{sdk_permissions-join_iff}
use saas_chassis.Sdk.TenantAware.{
  TenantContextData, Trace, Call, rollback, release, with_tenant_context,
}
use saas_chassis.Sdk.TenantAware.Protocol.{protocol, with_tenant_context-err}

abbrev options : ChassisOptions
options = record {
  tenant_manager_url = some "http://tm";
  enable_feature_gating = true;
  service_token = none;
}

abbrev empty : State
empty = record { cache = []; requests = [] }

abbrev asked : Request
asked = record { now = 0; later = 5; fetched = answered (some true); tenant_id = "t"; code = "f" }

serve-IsBounded_example : IsBounded (serve options (asked ∷ asked ∷ []) empty)
serve-IsBounded_example =
    serve-IsBounded options (asked ∷ asked ∷ []) empty (record { bound = omega arith })

abbrev headers : Headers
headers = record {
  user_id = some "u";
  is_platform_admin = some "false";
  roles = none;
  permissions = some "a:read,b:write";
}

abbrev context : TenantContextData
context = record { tenant_id = "t"; user_id = "u"; is_platform_admin = false }

abbrev fine : Trace → Call → Result (Unit {0})
fine t c = ok tt

abbrev down : Trace → Call → Result (Unit {0})
down t c = err (error "down")

abbrev rows : Trace → Result ℕ
rows t = ok 3

abbrev write_permission : Option String
write_permission = some "b:write"

sdk_permissions-join_iff_example : (sdk_permissions write_permission headers ≡ ok true) ↔ (
    (write_permission ≡ none)
    ⊎ ((write_permission ≡ some "")
        ⊎ ((headers.is_platform_admin ≡ some "true")
            ⊎ ((p : String) × (write_permission ≡ some p) × Elem p ("a:read" ∷ "b:write" ∷ [])))))
sdk_permissions-join_iff_example =
    sdk_permissions-join_iff write_permission ("a:read" ∷ "b:write" ∷ []) headers (refl, (refl, tt))
      refl

ran : with_tenant_context fine rows (some context) [] ≡ (ok 3, protocol context ++ release ∷ [])
unfolding with_tenant_context
ran = refl

failed :
    with_tenant_context down rows (some context) []
    ≡ (err (error "down"), take 1 (protocol context) ++ rollback ∷ release ∷ [])
unfolding with_tenant_context
failed = refl

with_tenant_context-err_example :
    let t = take 1 (protocol context) ++ rollback ∷ release ∷ [] in
    (t ≡ protocol context ++ release ∷ [])
    ⊎ ((n : ℕ) × (1 ≤ n) × (n ≤ 6) × (t ≡ take n (protocol context) ++ rollback ∷ release ∷ []))
with_tenant_context-err_example =
    with_tenant_context-err down rows context (error "down")
      (take 1 (protocol context) ++ rollback ∷ release ∷ []) failed
