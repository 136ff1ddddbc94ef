-- ===== src/TenantManager/Tenants/Lifecycle/Consistency.antt =====
-- services/tenant-manager/src/modules/tenants/tenants.service.ts: the status of a tenant and its
-- dates agree through every lifecycle operation and billing event.
use saas_chassis.Prelude.{
  ℕ, ap, ◌≡◌, ◌≢◌, ◌⊎◌, inl, inr, String, Bool, ◌||◌, Option, none, some, List, [], ◌∷◌, arith,
  ◌==◌, Result-cases, Bool-cases,
}
use saas_chassis.External.Repository.{IsTable}
use saas_chassis.External.Repository.Lookup.{Every, save-Every}
use saas_chassis.TenantManager.Entities.{Tenant, TenantStatus, SubscriptionStatusPayload}
use saas_chassis.TenantManager.State.{Env, World, save_tenant}
use saas_chassis.TenantManager.Features.Frames.{invalidate_tenant_feature_cache-tables}
use saas_chassis.TenantManager.Tenants.{has_id}
use saas_chassis.TenantManager.Tenants.Lifecycle.{
  is_status, suspend_tenant, activate_tenant, archive_tenant, handle_billing_synced,
  with_subscription_status, with_plan, handle_subscription_status,
}
use saas_chassis.TenantManager.Tenants.Lifecycle.Rows.{
  handle_subscription_status-Every, handle_billing_synced-Every,
}

-- The primary key of tenants.
abbrev pub same_tenant : Tenant → Tenant → Bool
same_tenant t u = t.id == u.id

-- A suspended tenant has the date of its suspension, an active one has none, and a cancelled one
-- has the date of its cancellation.
pub record IsConsistent (t : Tenant) : Type 0 where
  pub when_suspended : t.status ≡ TenantStatus.suspended → t.suspended_at ≢ none
  pub when_active : t.status ≡ TenantStatus.active → t.suspended_at ≡ none
  pub when_cancelled : t.status ≡ TenantStatus.cancelled → t.cancelled_at ≢ none

with_subscription_status-IsConsistent :
    (now : ℕ) (status : String) (t : Tenant)
    → IsConsistent t
    → IsConsistent (with_subscription_status now status t)
unfolding with_subscription_status
with_subscription_status-IsConsistent now status t h = record {
  when_suspended = ground (arith, h.when_suspended);
  when_active = ground (arith, h.when_active);
  when_cancelled = ground (arith, h.when_cancelled);
}

with_plan-IsConsistent :
    (plan : Option String) (t : Tenant) → IsConsistent t → IsConsistent (with_plan plan t)
unfolding with_plan
with_plan-IsConsistent none t h = h
with_plan-IsConsistent (some plan) t h = record {
  when_suspended = ground (arith, h.when_suspended);
  when_active = ground (arith, h.when_active);
  when_cancelled = ground (arith, h.when_cancelled);
}

module _ (env : Env) (t : IsTable same_tenant env.tenants) where
  -- The tenants of a state are all consistent.
  pub record AllConsistent (w : World env) : Type 0 where
    pub tenants : Every env.tenants IsConsistent w.tenants

  -- What an operation has done to the table: nothing, or it has tried to save one row.
  of_write :
      (w w' : World env)
      → ((w'.tenants ≡ w.tenants)
          ⊎ ((x : Tenant) × (w'.tenants ≡ (env.tenants.save x w.tenants).1)
              × (Every env.tenants IsConsistent w.tenants → IsConsistent x)))
      → AllConsistent w
      → AllConsistent w'
  of_write w w' (inl same) h = record { tenants = rw same h.tenants }
  of_write w w' (inr (x, saved, good)) h = record {
    tenants = rw saved (save-Every t IsConsistent x w.tenants (good h.tenants) h.tenants);
  }

  suspended-IsConsistent :
      (now : ℕ) (x : Tenant)
      → IsConsistent (record x { status = TenantStatus.suspended; suspended_at = some now })
  suspended-IsConsistent now x = record {
    when_suspended = ground arith;
    when_active = ground arith;
    when_cancelled = ground arith;
  }

  activated-IsConsistent :
      (x : Tenant) → IsConsistent (record x { status = TenantStatus.active; suspended_at = none })
  activated-IsConsistent x = record {
    when_suspended = ground arith;
    when_active = ground arith;
    when_cancelled = ground arith;
  }

  archived-IsConsistent :
      (now : ℕ) (x : Tenant)
      → IsConsistent (record x { status = TenantStatus.cancelled; cancelled_at = some now })
  archived-IsConsistent now x = record {
    when_suspended = ground arith;
    when_active = ground arith;
    when_cancelled = ground arith;
  }

  module _ (w : World env) (h : AllConsistent w) where
    suspend_tenant-consistent :
        (now : ℕ) (id : String) (reason : Option String)
        → AllConsistent (suspend_tenant env now id reason w).1
    unfolding suspend_tenant
    suspend_tenant-consistent now id reason =
        of_write w _
          (elim (Result-cases (env.tenants.find_one (has_id id) w.tenants)) [
            | inr (e, q) ↦ inl (ground arith)
            | inl (none, q) ↦ inl (ground arith)
            | inl (some x, q) ↦
                elim (Bool-cases (
                  is_status x.status TenantStatus.suspended
                  || is_status x.status TenantStatus.cancelled)) [
                    | inl refused ↦ inl (ground arith)
                    | inr passed ↦ inr (_, ground arith, λ _. suspended-IsConsistent now x)
                  ]
          ])
          h

    activate_tenant-consistent : (id : String) → AllConsistent (activate_tenant env id w).1
    unfolding activate_tenant
    activate_tenant-consistent id =
        of_write w _
          (elim (Result-cases (env.tenants.find_one (has_id id) w.tenants)) [
            | inr (e, q) ↦ inl (ground arith)
            | inl (none, q) ↦ inl (ground arith)
            | inl (some x, q) ↦
                elim (Bool-cases (
                  is_status x.status TenantStatus.active
                  || is_status x.status TenantStatus.cancelled)) [
                    | inl refused ↦ inl (ground arith)
                    | inr passed ↦ inr (_, ground arith, λ _. activated-IsConsistent x)
                  ]
          ])
          h

    archive_tenant-consistent :
        (fuel now : ℕ) (id : String) → AllConsistent (archive_tenant env fuel now id w).1
    unfolding archive_tenant
    archive_tenant-consistent fuel now id =
        of_write w _
          (elim (Result-cases (env.tenants.find_one (has_id id) w.tenants)) [
            | inr (e, q) ↦ inl (ground arith)
            | inl (none, q) ↦ inl (ground arith)
            | inl (some x, q) ↦ elim (Bool-cases (is_status x.status TenantStatus.cancelled)) [
              | inl refused ↦ inl (ground arith)
              | inr passed ↦
                  let y = record x { status = TenantStatus.cancelled; cancelled_at = some now } in
                  inr (
                    y,
                    ground (
                      arith,
                      ap (λ p. p.0)
                          (invalidate_tenant_feature_cache-tables env fuel id
                            (save_tenant env y w).1).same,
                    ),
                    λ _. archived-IsConsistent now x,
                  )
            ]
          ])
          h

    handle_subscription_status-consistent :
        (now : ℕ) (payload : SubscriptionStatusPayload)
        → AllConsistent (handle_subscription_status env now payload w).1
    handle_subscription_status-consistent now payload = record {
      tenants =
          handle_subscription_status-Every env t IsConsistent w h.tenants now payload (λ x good.
            with_plan-IsConsistent payload.plan (with_subscription_status now payload.status x)
              (with_subscription_status-IsConsistent now payload.status x good));
    }

    handle_billing_synced-consistent :
        (id customer : String) → AllConsistent (handle_billing_synced env id customer w).1
    handle_billing_synced-consistent id customer = record {
      tenants =
          handle_billing_synced-Every env t IsConsistent w h.tenants id customer (λ x own good.
            record {
              when_suspended = good.when_suspended;
              when_active = good.when_active;
              when_cancelled = good.when_cancelled;
            });
    }

-- A lifecycle operation or a billing event, with its arguments and the time that it reads.
pub data Operation : Type 0 where
  suspend : (now : ℕ) → (id : String) → (reason : Option String) → Operation
  activate : (id : String) → Operation
  archive : (fuel now : ℕ) → (id : String) → Operation
  billing_synced : (id customer : String) → Operation
  subscription_status : (now : ℕ) → SubscriptionStatusPayload → Operation

module _ (env : Env) where
  -- The state after an operation, whether it returned or threw.
  abbrev pub perform : Operation → World env → World env
  perform (suspend now id reason) w = (suspend_tenant env now id reason w).1
  perform (activate id) w = (activate_tenant env id w).1
  perform (archive fuel now id) w = (archive_tenant env fuel now id w).1
  perform (billing_synced id customer) w = (handle_billing_synced env id customer w).1
  perform (subscription_status now payload) w = (handle_subscription_status env now payload w).1

  abbrev pub perform_all : List Operation → World env → World env
  perform_all [] w = w
  perform_all (o ∷ os) w = perform_all os (perform o w)

module _ (env : Env) (t : IsTable same_tenant env.tenants) where
  perform-AllConsistent :
      (o : Operation) (w : World env)
      → AllConsistent env t w
      → AllConsistent env t (perform env o w)
  perform-AllConsistent (suspend now id reason) w h =
      suspend_tenant-consistent env t w h now id reason
  perform-AllConsistent (activate id) w h = activate_tenant-consistent env t w h id
  perform-AllConsistent (archive fuel now id) w h = archive_tenant-consistent env t w h fuel now id
  perform-AllConsistent (billing_synced id customer) w h =
      handle_billing_synced-consistent env t w h id customer
  perform-AllConsistent (subscription_status now payload) w h =
      handle_subscription_status-consistent env t w h now payload

  -- Where each tenant's status agrees with its dates (a suspended tenant has a suspension date, an
  -- active one none, a cancelled one a cancellation date), it does so after any sequence of
  -- suspensions, activations, archivings and billing events, also those that throw.
  pub perform_all-AllConsistent :
      (os : List Operation) (w : World env)
      → AllConsistent env t w
      → AllConsistent env t (perform_all env os w)
  perform_all-AllConsistent [] w h = h
  perform_all-AllConsistent (o ∷ os) w h =
      perform_all-AllConsistent os (perform env o w) (perform-AllConsistent o w h)
