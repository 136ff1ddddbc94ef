-- ===== src/TenantManager/Tenants/Rows.antt =====
-- services/tenant-manager/src/modules/tenants/tenants.service.ts: what `createTenant` keeps of each
-- tenant.
use saas_chassis.Prelude.{
  ◌≡◌, refl, inl, inr, String, Bool, not, Option, none, some, [], ◌∷◌, Action, pure, arith, is_some,
  try_catch, Result-cases, IsPreorder, Steps, Steps->>=, Steps->>, for_each, for_each-Steps,
  when-Steps, try_catch-Steps, ◌>>◌, template, or_else,
}
use saas_chassis.External.Repository.{IsTable}
use saas_chassis.External.Repository.Lookup.{Every, save-Every}
use saas_chassis.TenantManager.Entities.{
  tenant_provisioned, Tenant, TenantStatus, Plan, CreateTenantDto,
}
use saas_chassis.TenantManager.State.{Env, World, save_tenant, find_one_feature, publish}
use saas_chassis.TenantManager.Plans.{find_by_code}
use saas_chassis.TenantManager.Features.{is_override, insert_feature}
use saas_chassis.TenantManager.Tenants.{
  create_tenant, provision, transaction, finish, slug_taken, create_owner, new_tenant,
  enable_feature,
}
use saas_chassis.TenantManager.Tenants.Provisioning.{slug_taken-err, find_by_code-world}

module _ (env : Env) {same : Tenant → Tenant → Bool} (t : IsTable same env.tenants)
    (P : Tenant → Type 0) where
  -- A step that keeps the property of all tenants.
  pub record Keeps (w v : World env) : Type 0 where
    pub every : Every env.tenants P w.tenants → Every env.tenants P v.tenants

  Keeps-IsPreorder : IsPreorder Keeps
  Keeps-IsPreorder = record {
    reflexive = λ w. record { every = λ h. h };
    transitive = λ u v w p q. record { every = λ h. q.every (p.every h) };
  }

  same_tenants : (w v : World env) → v.tenants ≡ w.tenants → Keeps w v
  same_tenants w v e = record { every = λ h. rw e h }

  save_tenant-Keeps : (x : Tenant) → P x → Steps Keeps (save_tenant env x)
  save_tenant-Keeps x px w = record { every = λ h. save-Every t P x w.tenants px h }

  enable_feature-Keeps :
      (tenant_id user code : String) → Steps Keeps (enable_feature env tenant_id user code)
  enable_feature-Keeps tenant_id user code =
      Steps->>= Keeps-IsPreorder (find_one_feature env (is_override tenant_id code)) _
        (λ w. record { every = λ h. h })
        λ found.
          when-Steps Keeps-IsPreorder (not (is_some found)) (insert_feature env tenant_id user code)
            (λ w. record { every = λ h. h })

  module _ (dto : CreateTenantDto)
      (fresh : (x : Tenant) → x.stripe_customer_id ≡ dto.stripe_customer_id → P x) where
    provision-Keeps :
        (slug plan_code : String) (plan : Plan) (user : String)
        → Steps Keeps (provision env dto slug plan_code plan user)
    unfolding provision
    provision-Keeps slug plan_code plan user w =
        let o = Keeps-IsPreorder in
        let id = env.tenants.new_id w.tenants in
        let provisioned = new_tenant env dto id slug plan_code in
        let activated : Tenant = record provisioned {
          enabled_features = plan.included_features;
          status = TenantStatus.active;
        } in
        let first = save_tenant env provisioned in
        let enable = for_each plan.included_features (enable_feature env id user) in
        let last = save_tenant env activated >> pure activated in
        Steps->> o first (enable >> last) (save_tenant-Keeps provisioned (fresh provisioned refl))
          (Steps->> o enable last
            (for_each-Steps o plan.included_features (enable_feature env id user)
              (enable_feature-Keeps id user))
            (Steps->> o (save_tenant env activated) (pure activated)
              (save_tenant-Keeps activated (fresh activated refl))
              (λ v. record { every = λ h. h })))
          w

    transaction-Keeps :
        (body : Action (World env) Tenant) → Steps Keeps body → Steps Keeps (transaction env body)
    unfolding transaction finish
    transaction-Keeps body k w =
        let v = (transaction env body w).1 in
        elim (Result-cases (body w).0) [
          | inr (x, q) ↦ same_tenants w v (ground arith)
          | inl (saved, q) ↦
              elim (Result-cases (env.commit (body w).1.tenants (body w).1.features)) [
                | inr (x, c) ↦ same_tenants w v (ground arith)
                | inl (_, c) ↦
                    let e : v.tenants ≡ (body w).1.tenants = ground arith in
                    record { every = λ h. rw e ((k w).every h) }
              ]
        ]

    create_owner-tenants :
        (url token : Option String) (saved : Tenant) (user : String) (w : World env)
        → (create_owner env url token saved user w).1.tenants ≡ w.tenants
    unfolding create_owner
    create_owner-tenants none token saved user w = refl
    create_owner-tenants (some url) none saved user w = refl
    create_owner-tenants (some url) (some token) saved user w = ground arith

    announce-Keeps :
        (saved : Tenant) (user : String)
        → Steps Keeps (do
          create_owner env env.identity_service_url env.internal_service_token saved user
          publish env "tenant.provisioned"
              (tenant_provisioned saved.id saved.slug saved.current_plan saved.admin_email)
          pure saved)
    announce-Keeps saved user =
        let owner =
          create_owner env env.identity_service_url env.internal_service_token saved user in
        let tell =
          publish env "tenant.provisioned"
            (tenant_provisioned saved.id saved.slug saved.current_plan saved.admin_email) in
        Steps->> Keeps-IsPreorder owner (tell >> pure saved)
          (λ w.
            same_tenants w (owner w).1 (
              create_owner-tenants env.identity_service_url env.internal_service_token saved user
                w))
          (λ w. record { every = λ h. h })

    -- A creation, whether it returns or throws.
    pub create_tenant-Keeps : (uuid user : String) → Steps Keeps (create_tenant env uuid dto user)
    unfolding create_tenant
    create_tenant-Keeps uuid user =
        let o = Keeps-IsPreorder in
        let slug = template (env.slugify dto.name ∷ "-" ∷ uuid ∷ []) in
        let plan_code = or_else dto.plan "free" in
        Steps->>= o (find_by_code env plan_code) _
          (λ w. rw (find_by_code-world env plan_code w) (record { every = λ h. h }))
          λ plan.
            let body = provision env dto slug plan_code plan user in
            let insert = try_catch (transaction env body) (slug_taken env slug) in
            Steps->>= o insert _
              (try_catch-Steps o (transaction env body) (slug_taken env slug)
                (transaction-Keeps body (provision-Keeps slug plan_code plan user))
                (λ x w. rw (slug_taken-err env slug x w) (record { every = λ h. h })))
              (λ saved. announce-Keeps saved user)
