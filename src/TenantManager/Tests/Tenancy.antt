-- ===== src/TenantManager/Tests/Tenancy.antt =====
-- services/tenant-manager/src/modules/tenants at concrete inputs.
use mathlib.Core.Path.{subst}
use saas_chassis.Prelude.{◌∙◌, ◌↔◌, ◌≡◌, refl, sym, inl, inr, none, some, List, [], ◌∷◌, ok, arith}
use saas_chassis.External.Repository.Memory
use saas_chassis.External.Repository.Lookup.{IsUnique}
use saas_chassis.TenantManager.Entities.{Tenant, TenantStatus, SubscriptionStatusPayload}
use saas_chassis.TenantManager.State.{World}
use saas_chassis.TenantManager.Tenants.Lifecycle.{
  suspend_tenant, activate_tenant, handle_subscription_status,
}
use saas_chassis.TenantManager.Tenants.Lifecycle.Consistency.{
  same_tenant, IsConsistent, AllConsistent, Operation, suspend, archive, subscription_status,
  perform_all, perform_all-AllConsistent,
}
use saas_chassis.TenantManager.Tenants.Lifecycle.Transitions.{handle_subscription_status-unknown}
use saas_chassis.TenantManager.Tests.{env, world, tenant}

tenant-IsConsistent : IsConsistent tenant
tenant-IsConsistent = record {
  when_suspended = λ h. ground arith;
  when_active = λ h. refl;
  when_cancelled = λ h. ground arith;
}

world-AllConsistent : AllConsistent env (Memory.memory-IsTable same_tenant "t9") world
world-AllConsistent = record {
  tenants = record {
    at = λ x has. elim has [
      | inl e ↦ subst IsConsistent (sym e) tenant-IsConsistent
      | inr n ↦ elim n [ ]
    ];
  };
}

abbrev cancellation : SubscriptionStatusPayload
cancellation = record { tenant_id = "t1"; status = "canceled"; plan = none }

abbrev history : List Operation
history = suspend 100 "t1" none ∷ subscription_status 200 cancellation ∷ archive 5 300 "t1" ∷ []

perform_all-AllConsistent_example :
    AllConsistent env (Memory.memory-IsTable same_tenant "t9") (perform_all env history world)
perform_all-AllConsistent_example =
    perform_all-AllConsistent env (Memory.memory-IsTable same_tenant "t9") history world
      world-AllConsistent

abbrev suspended : Tenant
suspended = record tenant { status = TenantStatus.suspended; suspended_at = some 100 }

abbrev after_suspension : World env
after_suspension = (suspend_tenant env 100 "t1" none world).1

abbrev after_activation : World env
after_activation = (activate_tenant env "t1" after_suspension).1

suspension : suspend_tenant env 100 "t1" none world ≡ (ok suspended, after_suspension)
unfolding suspend_tenant
suspension = refl

activation : activate_tenant env "t1" after_suspension ≡ (ok tenant, after_activation)
unfolding suspend_tenant activate_tenant
activation = refl

abbrev after_event : World env
after_event = (handle_subscription_status env 200 cancellation world).1

one_tenant : IsUnique same_tenant env.tenants world.tenants
one_tenant = record {
  at = λ x y hx hy e. elim hx [
    | inl p ↦ elim hy [ inl q ↦ p ∙ sym q | inr n ↦ elim n [ ] ]
    | inr n ↦ elim n [ ]
  ];
}

handle_subscription_status-unknown_example :
    env.tenants.Has after_event.tenants tenant ↔ env.tenants.Has world.tenants tenant
handle_subscription_status-unknown_example =
    handle_subscription_status-unknown env (Memory.memory-IsTable same_tenant "t9") 200 cancellation
      world tenant refl refl one_tenant
