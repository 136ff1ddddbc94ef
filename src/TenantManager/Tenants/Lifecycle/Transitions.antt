-- ===== src/TenantManager/Tenants/Lifecycle/Transitions.antt =====
-- services/tenant-manager/src/modules/tenants/tenants.service.ts: which changes of a tenant's
-- status the operations make.
use mathlib.Core.Path.{subst}
use saas_chassis.Prelude.{
  ℕ, ◌≡◌, ◌≢◌, ap, sym, ◌∙◌, inl, inr, ◌↔◌, String, Bool, true, false, ◌||◌, Option, none, some, ok,
  arith, ◌==◌, eq_iff, Result-cases,
}
use saas_chassis.External.Repository.{IsTable}
use saas_chassis.External.Repository.Lookup.{IsUnique, find_one-save_self, save_self}
use saas_chassis.TenantManager.Entities.{Tenant, TenantStatus, SubscriptionStatusPayload}
use saas_chassis.TenantManager.State.{Env, World}
use saas_chassis.TenantManager.Tenants.{has_id}
use saas_chassis.TenantManager.Tenants.Lifecycle.{
  suspend_tenant, activate_tenant, with_subscription_status, with_plan, handle_subscription_status,
}
use saas_chassis.TenantManager.Tenants.Lifecycle.Consistency.{same_tenant}

module _ (env : Env) (w w' : World env) (id : String) where
  -- What a suspension that returns has found and saved.
  suspend_tenant-found :
      (now : ℕ) (reason : Option String) (s : Tenant)
      → suspend_tenant env now id reason w ≡ (ok s, w')
      → (x : Tenant) × (env.tenants.find_one (has_id id) w.tenants ≡ ok (some x))
        × (s ≡ record x { status = TenantStatus.suspended; suspended_at = some now })
        × (env.tenants.save s w.tenants ≡ (ok tt, w'.tenants))
        × (x.status ≢ TenantStatus.suspended)
        × (x.status ≢ TenantStatus.cancelled)
  unfolding suspend_tenant
  suspend_tenant-found now reason s h =
      elim (Result-cases (env.tenants.find_one (has_id id) w.tenants)) [
        | inr (e, q) ↦ ground arith
        | inl (none, q) ↦ ground arith
        | inl (some x, q) ↦ (x, q, ground arith, ground arith, ground arith, ground arith)
      ]

  activate_tenant-found :
      (a : Tenant)
      → activate_tenant env id w ≡ (ok a, w')
      → (x : Tenant) × (env.tenants.find_one (has_id id) w.tenants ≡ ok (some x))
        × (a ≡ record x { status = TenantStatus.active; suspended_at = none })
        × (env.tenants.save a w.tenants ≡ (ok tt, w'.tenants))
        × (x.status ≢ TenantStatus.active)
        × (x.status ≢ TenantStatus.cancelled)
  unfolding activate_tenant
  activate_tenant-found a h = elim (Result-cases (env.tenants.find_one (has_id id) w.tenants)) [
    | inr (e, q) ↦ ground arith
    | inl (none, q) ↦ ground arith
    | inl (some x, q) ↦ (x, q, ground arith, ground arith, ground arith, ground arith)
  ]

module _ (env : Env) (t : IsTable same_tenant env.tenants) (w w' w'' : World env)
    (id : String) where
  -- A suspension that returns is undone by an activation that returns: the tenant was neither
  -- suspended nor cancelled before, and what the activation returns differs from the tenant before
  -- only in being active with no suspension date.
  activate_tenant-suspend_tenant :
      (now : ℕ) (reason : Option String) (s a : Tenant)
      → suspend_tenant env now id reason w ≡ (ok s, w')
      → activate_tenant env id w' ≡ (ok a, w'')
      → (x : Tenant) × (env.tenants.find_one (has_id id) w.tenants ≡ ok (some x))
        × (x.status ≢ TenantStatus.suspended)
        × (x.status ≢ TenantStatus.cancelled)
        × (a ≡ record x { status = TenantStatus.active; suspended_at = none })
  activate_tenant-suspend_tenant now reason s a suspended activated =
      let (x, found, made, saved, ns, nc) =
        suspend_tenant-found env w w' id now reason s suspended in
      let (y, found', made', _, _, _) = activate_tenant-found env w' w'' id a activated in
      let (_, key) = t.find_one_some (has_id id) w.tenants x found in
      let key_s : has_id id s ≡ true = ap (has_id id) made ∙ key in
      let same =
        find_one-save_self t (has_id id) s w.tenants w'.tenants (some y)
          (λ u. ground (arith, eq_iff s.id id, eq_iff s.id u.id, eq_iff u.id id)) key_s saved
          found' in
      (x, found, ns, nc, ground arith)

-- The texts that the handler of subscription-status knows.
abbrev pub known_status : String → Bool
known_status s = s == "active" || (s == "suspended" || s == "past_due") || s == "cancelled"

-- Where the ids of the tenants are unique, a subscription-status event with a status that is neither
-- active, suspended, past_due nor cancelled, and no plan, leaves exactly the tenants that there
-- were, each as it was, whether the handler returned or swallowed an error.
pub handle_subscription_status-unknown :
    (env : Env)
    → IsTable same_tenant env.tenants
    → (now : ℕ) (payload : SubscriptionStatusPayload) (w : World env) (y : Tenant)
    → known_status payload.status ≡ false
    → payload.plan ≡ none
    → IsUnique same_tenant env.tenants w.tenants
    → env.tenants.Has (handle_subscription_status env now payload w).1.tenants y
      ↔ env.tenants.Has w.tenants y
unfolding handle_subscription_status
handle_subscription_status-unknown env t now payload w y unknown no_plan unique =
    elim (Result-cases (env.tenants.find_one (has_id payload.tenant_id) w.tenants)) [
      | inr (e, q) ↦ rw q (λ has. has, λ has. has)
      | inl (none, q) ↦ rw q (λ has. has, λ has. has)
      | inl (some x, q) ↦
          let plain : with_plan payload.plan (with_subscription_status now payload.status x) ≡ x =
            ground arith in
          let after : (handle_subscription_status env now payload w).1.tenants
              ≡ (env.tenants.save x w.tenants).1 =
            ground (arith, plain) in
          let (old, _) = t.find_one_some (has_id payload.tenant_id) w.tenants x q in
          subst (λ s. env.tenants.Has s y ↔ env.tenants.Has w.tenants y) (sym after)
            (save_self t x y w.tenants unique old)
    ]
