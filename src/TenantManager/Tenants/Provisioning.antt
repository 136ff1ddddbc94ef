-- ===== src/TenantManager/Tenants/Provisioning.antt =====
-- services/tenant-manager/src/modules/tenants/tenants.service.ts: the transaction of `createTenant`.
use saas_chassis.Prelude.{
  bad_request, conflict, forbidden, not_found, unauthorized, query_failed, error, ◌≡◌, refl, ap,
  ◌∙◌, inl, inr, String, Option, none, some, List, [], ◌∷◌, ok, err, Exception, Action, pure, arith,
  is_some, not, try_catch, Result-cases, Same, Same-IsPreorder, Steps, Steps->>=, for_each-Steps,
  when-Steps, >>=-eq-err, ◌>>◌, template, or_else,
}
use saas_chassis.External.Broker.{Publisher}
use saas_chassis.TenantManager.Entities.{tenant_provisioned, Tenant, Plan, CreateTenantDto}
use saas_chassis.TenantManager.State.{
  Env, World, MembershipRequest, save_tenant, find_one_feature, publish,
}
use saas_chassis.TenantManager.Plans.{find_by_code}
use saas_chassis.TenantManager.Features.{is_override, insert_feature}
use saas_chassis.TenantManager.Tenants.{
  create_tenant, provision, transaction, finish, slug_taken, create_owner, new_tenant,
  enable_feature,
}

module _ (env : Env) where
  -- What the database cannot take back.
  abbrev sent : World env → Publisher env.broker × List MembershipRequest
  sent w = (w.publisher, w.requests)

  enable_feature-sent :
      (tenant_id user code : String) → Steps (Same sent) (enable_feature env tenant_id user code)
  enable_feature-sent tenant_id user code =
      let o = Same-IsPreorder sent in
      Steps->>= o (find_one_feature env (is_override tenant_id code)) _
        (λ w. record { same = refl })
        λ found.
          when-Steps o (not (is_some found)) (insert_feature env tenant_id user code)
            (λ w. record { same = refl })

  provision-sent :
      (dto : CreateTenantDto) (slug plan_code : String) (plan : Plan) (user : String)
      → Steps (Same sent) (provision env dto slug plan_code plan user)
  unfolding provision
  provision-sent dto slug plan_code plan user w =
      let id = env.tenants.new_id w.tenants in
      let provisioned = new_tenant env dto id slug plan_code in
      let created = (save_tenant env provisioned w).1 in
      let kept =
        (for_each-Steps (Same-IsPreorder sent) plan.included_features (enable_feature env id user)
          (enable_feature-sent id user) created).same in
      record { same = ground (arith, kept) }

  pub find_by_code-world : (code : String) (w : World env) → (find_by_code env code w).1 ≡ w
  unfolding find_by_code
  find_by_code-world code w = ground arith

  -- A transaction whose result is an error leaves both tables as they were.
  transaction-err :
      (body : Action (World env) Tenant) (w : World env) (e : Exception)
      → (transaction env body w).0 ≡ err e
      → ((transaction env body w).1.tenants ≡ w.tenants)
        × ((transaction env body w).1.features ≡ w.features)
        × (sent (transaction env body w).1 ≡ sent (body w).1)
  unfolding transaction finish
  transaction-err body w e h = elim (Result-cases (body w).0) [
    | inr (x, q) ↦ (ground arith, ground arith, ground arith)
    | inl (t, q) ↦ elim (Result-cases (env.commit (body w).1.tenants (body w).1.features)) [
      | inr (x, k) ↦ (ground arith, ground arith, ground arith)
      | inl (_, k) ↦ ground arith
    ]
  ]

  create_owner-ok :
      (url token : Option String) (t : Tenant) (user : String) (w : World env)
      → (create_owner env url token t user w).0 ≡ ok tt
  unfolding create_owner
  create_owner-ok none token t user w = refl
  create_owner-ok (some url) none t user w = refl
  create_owner-ok (some url) (some token) t user w = ground arith

  -- After the transaction nothing throws.
  announce-ok :
      (saved : Tenant) (user : String) (e : Exception) (w w' : World env)
      → (do
        create_owner env env.identity_service_url env.internal_service_token saved user
        publish env "tenant.provisioned"
            (tenant_provisioned saved.id saved.slug saved.current_plan saved.admin_email)
        pure saved)
          w
        ≡ (err e, w')
      → ⊥
  announce-ok saved user e w w' h =
      let c = create_owner-ok env.identity_service_url env.internal_service_token saved user w in
      cc (rw c at h)

  pub slug_taken-err :
      (slug : String) (x : Exception) (w : World env) → (slug_taken env slug x w).1 ≡ w
  unfolding slug_taken
  slug_taken-err slug (query_failed code) w = ground arith
  slug_taken-err slug (bad_request m) w = refl
  slug_taken-err slug (conflict m) w = refl
  slug_taken-err slug (forbidden m) w = refl
  slug_taken-err slug (not_found m) w = refl
  slug_taken-err slug (unauthorized m) w = refl
  slug_taken-err slug (error m) w = refl

  -- A failed insertion gives an error, with the state that the transaction has left.
  try_transaction-err :
      (slug : String) (body : Action (World env) Tenant) (e : Exception) (w : World env)
      → (try_catch (transaction env body) (slug_taken env slug) w).0 ≡ err e
      → (x : Exception) × ((transaction env body w).0 ≡ err x)
        × ((try_catch (transaction env body) (slug_taken env slug) w).1
            ≡ (transaction env body w).1)
  try_transaction-err slug body e w h = elim (Result-cases (transaction env body w).0) [
    | inl (t, q) ↦ cc (rw q at h)
    | inr (x, q) ↦ (x, q, rw q (slug_taken-err slug x (transaction env body w).1))
  ]

  -- A creation of a tenant that throws has changed no tenant and no feature override, has published
  -- nothing and has sent no request.
  pub create_tenant-err :
      (uuid : String) (dto : CreateTenantDto) (user : String) (e : Exception) (w w' : World env)
      → create_tenant env uuid dto user w ≡ (err e, w')
      → (w'.tenants ≡ w.tenants)
        × (w'.features ≡ w.features)
        × (w'.publisher ≡ w.publisher)
        × (w'.requests ≡ w.requests)
  unfolding create_tenant
  create_tenant-err uuid dto user e w w' h =
      let slug = template (env.slugify dto.name ∷ "-" ∷ uuid ∷ []) in
      let plan_code = or_else dto.plan "free" in
      let same = find_by_code-world plan_code w in
      elim (>>=-eq-err (find_by_code env plan_code) _ w w' e h) [
        | inl (_, left) ↦
            let s : w' ≡ w = left ∙ same in
            (
              ap (λ (u : World env). u.tenants) s,
              ap (λ (u : World env). u.features) s,
              ap (λ (u : World env). u.publisher) s,
              ap (λ (u : World env). u.requests) s,
            )
        | inr (plan, _, rest) ↦
            let body = provision env dto slug plan_code plan user in
            let at = (find_by_code env plan_code w).1 in
            elim (>>=-eq-err (try_catch (transaction env body) (slug_taken env slug)) _ at w' e
              rest) [
                | inl (thrown, left) ↦
                    let (x, failed, kept) = try_transaction-err slug body e at thrown in
                    let (tenants, features, after) = transaction-err body at x failed in
                    let before = (provision-sent dto slug plan_code plan user at).same in
                    let at_end = left ∙ kept in
                    let external = ap sent at_end ∙ after ∙ before ∙ ap sent same in
                    (
                      ap (λ (u : World env). u.tenants) at_end
                          ∙ tenants
                          ∙ ap (λ (u : World env). u.tenants) same,
                      ap (λ (u : World env). u.features) at_end
                          ∙ features
                          ∙ ap (λ (u : World env). u.features) same,
                      ap (λ p. p.0) external,
                      ap (λ p. p.1) external,
                    )
                | inr (saved, _, announced) ↦ absurd (announce-ok saved user e _ w' announced)
              ]
      ]
