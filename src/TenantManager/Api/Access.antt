-- ===== src/TenantManager/Api/Access.antt =====
-- services/tenant-manager/src/modules: what the guards of the handlers let through.
use saas_chassis.Prelude.{
  ℕ, ◌≡◌, ◌≢◌, refl, inl, inr, String, false, Option, none, some, ok, arith, same_text-eq, truthy,
  Result-cases, Bool-cases,
}
use saas_chassis.Http.{JwtPayload, ApiResponse}
use saas_chassis.TenantManager.Entities.{Tenant, UpdateTenantDto}
use saas_chassis.TenantManager.State.{Env, World}
use saas_chassis.TenantManager.Tenants.{
  has_id, assigned, find_by_id, update_tenant, update_fields, save_and_return,
}
use saas_chassis.TenantManager.Api.{TenantResponse, from_entity, update}

not_truthy : (plan : Option String) → truthy plan ≡ false → plan ≢ some "" → plan ≡ none
not_truthy none h n = refl
not_truthy (some String.[]) h n = absurd (n refl)
not_truthy (some (String.◌∷◌ c s)) h n = cc

module _ (env : Env) (user : JwtPayload) (id : String) (w w' : World env) where
  -- An update that returns for a user who is no platform administrator, where the request's plan is
  -- not the empty text, is of the user's own tenant. The answer and the row that is saved have the
  -- status, the slug, the plan, the features and the trial, suspension and cancellation dates of the
  -- stored tenant, and the row has its key.
  pub update-ok :
      (fuel : ℕ) (dto : UpdateTenantDto) (r : ApiResponse TenantResponse)
      → user.is_platform_admin ≡ false
      → dto.plan ≢ some ""
      → update env fuel id dto user w ≡ (ok r, w')
      → (user.tenant_id ≡ some id)
        × ((x : Tenant) × (y : TenantResponse) × (env.tenants.find_one (has_id id) w.tenants
              ≡ ok (some x))
            × (r.payload ≡ some y)
            × (y.status ≡ x.status)
            × (y.slug ≡ x.slug)
            × (y.current_plan ≡ x.current_plan)
            × (y.enabled_features ≡ x.enabled_features)
            × (y.trial_ends_at ≡ x.trial_ends_at)
            × (y.suspended_at ≡ x.suspended_at)
            × (y.cancelled_at ≡ x.cancelled_at)
            × ((z : Tenant) × (env.tenants.save z w.tenants ≡ (ok tt, w'.tenants))
                × (z.id ≡ x.id)
                × (z.status ≡ x.status)
                × (z.slug ≡ x.slug)
                × (z.current_plan ≡ x.current_plan)
                × (z.enabled_features ≡ x.enabled_features)
                × (z.trial_ends_at ≡ x.trial_ends_at)
                × (z.suspended_at ≡ x.suspended_at)
                × (z.cancelled_at ≡ x.cancelled_at)))
  unfolding update update_tenant find_by_id update_fields save_and_return
  update-ok fuel dto r plain plan h = elim (Bool-cases (truthy dto.plan)) [
    | inl refused ↦ (ground arith, ground arith)
    | inr passed ↦
        let kept = not_truthy dto.plan passed plan in
        let own : user.tenant_id ≡ some id = same_text-eq user.tenant_id id (ground arith) in
        (
          own,
          elim (Result-cases (env.tenants.find_one (has_id id) w.tenants)) [
            | inr (e, q) ↦ ground arith
            | inl (none, q) ↦ ground arith
            | inl (some x, q) ↦
                let z = assigned env dto x in
                let saved : env.tenants.save z w.tenants ≡ (ok tt, w'.tenants) = ground arith in
                (
                  x,
                  from_entity z,
                  q,
                  ground arith,
                  refl,
                  refl,
                  refl,
                  refl,
                  refl,
                  refl,
                  refl,
                  (z, saved, refl, refl, refl, refl, refl, refl, refl, refl),
                )
          ],
        )
  ]
