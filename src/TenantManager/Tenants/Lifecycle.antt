-- ===== src/TenantManager/Tenants/Lifecycle.antt =====
-- services/tenant-manager/src/modules/tenants/tenants.service.ts: the lifecycle operations and the
-- handlers of billing events. `now` is the time that `new Date()` reads.
pub mod Consistency
pub mod Rows
pub mod Transitions
use saas_chassis.Prelude.{
  ℕ, String, ◌≡◌, refl, Bool, true, false, not, ◌&&◌, ◌||◌, Option, none, some, List, [], ◌∷◌,
  Result, ok, err, Action, pure, throw, ◌>>=◌, ◌>>◌, ◌==◌, try_catch, bad_request, if◌then◌else◌,
  truthy,
}
use saas_chassis.TenantManager.Entities.{
  Tenant, TenantStatus, SubscriptionStatusPayload, tenant_suspended,
}
use saas_chassis.TenantManager.State.{
  Env, World, find_one_tenant, save_tenant, update_tenant, publish,
}
use saas_chassis.TenantManager.Features.{invalidate_tenant_feature_cache}
use saas_chassis.TenantManager.Tenants.{has_id, find_by_id}

abbrev pub is_status : TenantStatus → TenantStatus → Bool
is_status TenantStatus.provisioning TenantStatus.provisioning = true
is_status TenantStatus.active TenantStatus.active = true
is_status TenantStatus.suspended TenantStatus.suspended = true
is_status TenantStatus.cancelled TenantStatus.cancelled = true
is_status TenantStatus.past_due TenantStatus.past_due = true
is_status TenantStatus.archived TenantStatus.archived = true
is_status _ _ = false

module _ (env : Env) where
  -- The event's reason is absent or a text.
  unfoldable pub suspend_tenant :
      (now : ℕ) → String → (reason : Option String) → Action (World env) Tenant
  unfolding find_by_id
  suspend_tenant now id reason = do
    tenant ← find_by_id env id
    if is_status tenant.status TenantStatus.suspended
        then throw (bad_request "Tenant is already suspended")
        else if is_status tenant.status TenantStatus.cancelled
        then throw (bad_request "Cannot suspend a cancelled tenant")
        else do
          let suspended = record tenant { status = TenantStatus.suspended; suspended_at = some now }
          save_tenant env suspended
          publish env "tenant.suspended" (tenant_suspended id reason)
          pure suspended

  unfoldable pub activate_tenant : String → Action (World env) Tenant
  unfolding find_by_id
  activate_tenant id = do
    tenant ← find_by_id env id
    if is_status tenant.status TenantStatus.active
        then throw (bad_request "Tenant is already active")
        else if is_status tenant.status TenantStatus.cancelled
        then throw (bad_request "Cannot activate a cancelled tenant")
        else do
          let activated = record tenant { status = TenantStatus.active; suspended_at = none }
          save_tenant env activated
          pure activated

  unfoldable pub archive_tenant : (fuel now : ℕ) → String → Action (World env) (Unit {0})
  unfolding find_by_id
  archive_tenant fuel now id = do
    tenant ← find_by_id env id
    if is_status tenant.status TenantStatus.cancelled
        then throw (bad_request "Tenant is already archived/cancelled")
        else do
          save_tenant env
              (record tenant { status = TenantStatus.cancelled; cancelled_at = some now })
          invalidate_tenant_feature_cache env fuel id

  -- An error of the handlers is logged and swallowed.
  abbrev pub swallow : Action (World env) (Unit {0}) → Action (World env) (Unit {0})
  swallow m = try_catch m (λ _. pure tt)

  unfoldable pub handle_billing_synced :
      (tenant_id stripe_customer_id : String) → Action (World env) (Unit {0})
  handle_billing_synced tenant_id customer =
      swallow (
        update_tenant env (has_id tenant_id) (λ t. record t { stripe_customer_id = some customer }))

-- The `if … else if …` on the payload's status; no other status changes anything.
unfoldable pub with_subscription_status : (now : ℕ) → String → Tenant → Tenant
with_subscription_status now status t =
    if status == "active"
    then record t { status = TenantStatus.active; suspended_at = none }
    else if status == "suspended" || status == "past_due"
    then record t { status = TenantStatus.suspended; suspended_at = some now }
    else if status == "cancelled"
    then record t { status = TenantStatus.cancelled; cancelled_at = some now }
    else t

-- `if (payload.plan && payload.plan !== tenant.currentPlan)`
pub with_plan : Option String → Tenant → Tenant
with_plan none t = t
with_plan (some plan) t =
    if truthy (some plan) && not (plan == t.current_plan)
    then record t { current_plan = plan }
    else t

module _ (env : Env) where
  apply_status :
      (now : ℕ) → SubscriptionStatusPayload → Option Tenant → Action (World env) (Unit {0})
  unfolding with_subscription_status with_plan
  apply_status now payload none = pure tt
  apply_status now payload (some tenant) =
      save_tenant env (with_plan payload.plan (with_subscription_status now payload.status tenant))

  unfoldable pub handle_subscription_status :
      (now : ℕ) → SubscriptionStatusPayload → Action (World env) (Unit {0})
  unfolding apply_status
  handle_subscription_status now payload =
      swallow env (do
        tenant ← find_one_tenant env (has_id payload.tenant_id)
        apply_status now payload tenant)
