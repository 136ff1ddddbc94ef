-- ===== src/TenantManager/Tenants/Lifecycle/Rows.antt =====
-- services/tenant-manager/src/modules/tenants/tenants.service.ts: what the handlers of billing
-- events keep of each tenant.
use saas_chassis.Prelude.{
  ℕ, ◌≡◌, inl, inr, String, Bool, true, Option, none, some, arith, Result-cases,
}
use saas_chassis.External.Repository.{IsTable}
use saas_chassis.External.Repository.Lookup.{Every, save-Every, update-Every}
use saas_chassis.TenantManager.Entities.{Tenant, SubscriptionStatusPayload}
use saas_chassis.TenantManager.State.{Env, World}
use saas_chassis.TenantManager.Tenants.{has_id}
use saas_chassis.TenantManager.Tenants.Lifecycle.{
  handle_billing_synced, with_subscription_status, with_plan, handle_subscription_status,
}

module _ (env : Env) {same : Tenant → Tenant → Bool} (t : IsTable same env.tenants)
    (P : Tenant → Type 0) (w : World env) (h : Every env.tenants P w.tenants) where
  -- A property that the changes of a status event keep.
  pub handle_subscription_status-Every :
      (now : ℕ) (payload : SubscriptionStatusPayload)
      → ((x : Tenant)
          → P x
          → P (with_plan payload.plan (with_subscription_status now payload.status x)))
      → Every env.tenants P (handle_subscription_status env now payload w).1.tenants
  unfolding handle_subscription_status
  handle_subscription_status-Every now payload kept =
      let after = (handle_subscription_status env now payload w).1.tenants in
      elim (Result-cases (env.tenants.find_one (has_id payload.tenant_id) w.tenants)) [
        | inr (e, q) ↦ let k : after ≡ w.tenants = ground arith in rw k h
        | inl (none, q) ↦ let k : after ≡ w.tenants = ground arith in rw k h
        | inl (some x, q) ↦
            let y = with_plan payload.plan (with_subscription_status now payload.status x) in
            let k : after ≡ (env.tenants.save y w.tenants).1 = ground arith in
            let (stored, _) = t.find_one_some (has_id payload.tenant_id) w.tenants x q in
            rw k (save-Every t P y w.tenants (kept x (h.at x stored)) h)
      ]

  -- A property that the tenant of the event keeps with its new customer.
  pub handle_billing_synced-Every :
      (id customer : String)
      → ((x : Tenant)
          → has_id id x ≡ true
          → P x
          → P (record x { stripe_customer_id = some customer }))
      → Every env.tenants P (handle_billing_synced env id customer w).1.tenants
  unfolding handle_billing_synced
  handle_billing_synced-Every id customer kept =
      let f = λ (x : Tenant). record x { stripe_customer_id = some customer } in
      let k : (handle_billing_synced env id customer w).1.tenants
          ≡ (env.tenants.update (has_id id) f w.tenants).1 =
        ground arith in
      rw k (update-Every t P (has_id id) f w.tenants kept h)

-- A status event changes neither the id nor the Stripe customer of a tenant.
pub with_plan-keeps :
    (now : ℕ) (status : String) (plan : Option String) (x : Tenant)
    → ((with_plan plan (with_subscription_status now status x)).id ≡ x.id)
      × ((with_plan plan (with_subscription_status now status x)).stripe_customer_id
          ≡ x.stripe_customer_id)
unfolding with_plan with_subscription_status
with_plan-keeps now status none x = (ground arith, ground arith)
with_plan-keeps now status (some plan) x = (ground arith, ground arith)
