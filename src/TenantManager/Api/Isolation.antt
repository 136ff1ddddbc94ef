-- ===== src/TenantManager/Api/Isolation.antt =====
-- services/tenant-manager/src/modules: the requests of a user who is no platform administrator reach
-- no other tenant.
use saas_chassis.Prelude.{
  ℕ, ◌≡◌, refl, ap, sym, ◌↔◌, inl, inr, String, Bool, true, false, Option, none, some, List, arith,
  ◌==◌, eq_iff, eq_refl, same_text, same_text-eq, Result-cases, Bool-cases, IsPreorder, Steps,
  Steps->>, Steps->>=, for_each, for_each-Steps, truthy,
}
use saas_chassis.External.Repository.{IsTable}
use saas_chassis.External.Repository.Lookup.{save-others, delete-others}
use saas_chassis.Http.{JwtPayload}
use saas_chassis.TenantManager.Entities.{Tenant, TenantFeature, CreateTenantDto, UpdateTenantDto}
use saas_chassis.TenantManager.State.{Env, World, save_tenant, delete_features}
use saas_chassis.TenantManager.Plans.{find_by_code}
use saas_chassis.TenantManager.Features.{
  find_tenant_features, insert_feature, replace_tenant_features, invalidate_tenant_feature_cache,
  upserted,
}
use saas_chassis.TenantManager.Features.Toggle.{same_feature}
use saas_chassis.TenantManager.Features.Frames.{tables, invalidate_tenant_feature_cache-tables}
use saas_chassis.TenantManager.Tenants.Lifecycle.Consistency.{same_tenant}
use saas_chassis.TenantManager.Tenants.{
  find_all, find_by_id, update_tenant, has_id, change_plan, update_fields, assigned,
  save_and_return,
}
use saas_chassis.TenantManager.Api.{
  create, find_page, find_one, update, suspend, activate, remove, list_tenant_features, toggle,
}

-- The tables have the same rows, but for those of one tenant.
pub record OnlyOf (env : Env) (own : Option String) (w w' : World env) : Type 0 where
  pub tenants :
      (y : Tenant)
      → same_text own (some y.id) ≡ false
      → env.tenants.Has w'.tenants y ↔ env.tenants.Has w.tenants y
  pub features :
      (f : TenantFeature)
      → same_text own (some f.tenant_id) ≡ false
      → env.features.Has w'.features f ↔ env.features.Has w.features f

module _ (env : Env) where
  OnlyOf-IsPreorder : (own : Option String) → IsPreorder (OnlyOf env own)
  OnlyOf-IsPreorder own = record {
    reflexive =
        λ w. record { tenants = λ y o. (λ h. h, λ h. h); features = λ f o. (λ h. h, λ h. h) };
    transitive = λ u v w p q. record {
      tenants = λ y o. (
        λ h. (p.tenants y o).0 ((q.tenants y o).0 h),
        λ h. (q.tenants y o).1 ((p.tenants y o).1 h),
      );
      features = λ f o. (
        λ h. (p.features f o).0 ((q.features f o).0 h),
        λ h. (q.features f o).1 ((p.features f o).1 h),
      );
    };
  }

  of_tables : (own : Option String) (w w' : World env) → tables w' ≡ tables w → OnlyOf env own w w'
  of_tables own w w' e =
      let et : w'.tenants ≡ w.tenants = ap (λ p. p.0) e in
      let ef : w'.features ≡ w.features = ap (λ p. p.1) e in
      record { tenants = λ y o. rw et (λ h. h, λ h. h); features = λ f o. rw ef (λ h. h, λ h. h) }

module _ (env : Env) (tt : IsTable same_tenant env.tenants) (tf : IsTable same_feature env.features)
    (id : String) where
  save_tenant-OnlyOf :
      (x : Tenant) → (x.id == id) ≡ true → Steps (OnlyOf env (some id)) (save_tenant env x)
  save_tenant-OnlyOf x key w = record {
    tenants = λ y o.
        save-others tt w.tenants y x
          (ground (arith, eq_iff x.id id, eq_iff x.id y.id, eq_iff id y.id))
          (λ e. (eq_iff x.id y.id).1 (sym (ap (λ (u : Tenant). u.id) e)));
    features = λ f o. (λ h. h, λ h. h);
  }

  insert_feature-OnlyOf :
      (user code : String) → Steps (OnlyOf env (some id)) (insert_feature env id user code)
  insert_feature-OnlyOf user code w = record {
    tenants = λ y o. (λ h. h, λ h. h);
    features = λ f o.
        save-others tf w.features f (upserted id code true user none) (ground arith)
          (λ e. rw e (rw (eq_refl id, eq_refl code) refl));
  }

  delete_features-OnlyOf :
      Steps (OnlyOf env (some id)) (delete_features env (λ f. f.tenant_id == id))
  delete_features-OnlyOf w = record {
    tenants = λ y o. (λ h. h, λ h. h);
    features = λ f o.
        delete-others tf w.features f (λ g. g.tenant_id == id)
          (ground (arith, eq_iff id f.tenant_id, eq_iff f.tenant_id id));
  }

  replace_tenant_features-OnlyOf :
      (codes : List String) (user : String)
      → Steps (OnlyOf env (some id)) (replace_tenant_features env id codes user)
  unfolding replace_tenant_features
  replace_tenant_features-OnlyOf codes user =
      let o = OnlyOf-IsPreorder env (some id) in
      Steps->> o (delete_features env (λ f. f.tenant_id == id))
        (for_each codes (insert_feature env id user)) delete_features-OnlyOf
        (for_each-Steps o codes (insert_feature env id user) (insert_feature-OnlyOf user))

  find_by_code-OnlyOf : (code : String) → Steps (OnlyOf env (some id)) (find_by_code env code)
  unfolding find_by_code
  find_by_code-OnlyOf code w = of_tables env (some id) w _ (ground arith)

  change_plan-OnlyOf :
      (fuel : ℕ) (plan old_plan : String) (x : Tenant)
      → (x.id == id) ≡ true
      → Steps (OnlyOf env (some id)) (change_plan env fuel id plan old_plan x)
  unfolding change_plan
  change_plan-OnlyOf fuel plan old_plan x key =
      let o = OnlyOf-IsPreorder env (some id) in
      Steps->>= o (find_by_code env plan) _ (find_by_code-OnlyOf plan) λ p.
        Steps->> o (save_tenant env _) _ (save_tenant-OnlyOf _ key) (
          Steps->> o (replace_tenant_features env id _ id) _ (replace_tenant_features-OnlyOf _ id) (
            Steps->> o (invalidate_tenant_feature_cache env fuel id) _
              (λ w.
                of_tables env (some id) w _
                  (invalidate_tenant_feature_cache-tables env fuel id w).same)
              (λ w. of_tables env (some id) w _ refl)))

  save_and_return-OnlyOf :
      (x : Tenant) → (x.id == id) ≡ true → Steps (OnlyOf env (some id)) (save_and_return env x)
  unfolding save_and_return
  save_and_return-OnlyOf x key =
      let o = OnlyOf-IsPreorder env (some id) in
      Steps->> o (save_tenant env x) _ (save_tenant-OnlyOf x key) o.reflexive

  update_fields-OnlyOf :
      (fuel : ℕ) (plan : Option String) (old_plan : String) (x : Tenant)
      → (x.id == id) ≡ true
      → Steps (OnlyOf env (some id)) (update_fields env fuel id plan old_plan x)
  unfolding update_fields
  update_fields-OnlyOf fuel none old_plan x key = save_and_return-OnlyOf x key
  update_fields-OnlyOf fuel (some plan) old_plan x key = elim (Bool-cases (plan == old_plan)) [
    | inl e ↦ rw e (save_and_return-OnlyOf x key)
    | inr e ↦ rw e (change_plan-OnlyOf fuel plan old_plan x key)
  ]

  update_tenant-OnlyOf :
      (fuel : ℕ) (dto : UpdateTenantDto)
      → Steps (OnlyOf env (some id)) (update_tenant env fuel id dto)
  unfolding update_tenant
  update_tenant-OnlyOf fuel dto w =
      elim (Result-cases (env.tenants.find_one (has_id id) w.tenants)) [
        | inr (e, q) ↦ rw q ((OnlyOf-IsPreorder env (some id)).reflexive w)
        | inl (none, q) ↦ rw q ((OnlyOf-IsPreorder env (some id)).reflexive w)
        | inl (some x, q) ↦
            let (_, key) = tt.find_one_some (has_id id) w.tenants x q in
            rw q (update_fields-OnlyOf fuel dto.plan x.current_plan (assigned env dto x) key w)
      ]

-- A request of tenants.controller.ts or features.controller.ts with its parameters, its body, and
-- the time and random text that its handler reads.
pub data UserRequest : Type 0 where
  create_request : (uuid : String) → CreateTenantDto → UserRequest
  list_request : (page limit : Option String) → UserRequest
  get_request : (id : String) → UserRequest
  update_request : (fuel : ℕ) → (id : String) → UpdateTenantDto → UserRequest
  suspend_request : (now : ℕ) → (id : String) → (reason : Option String) → UserRequest
  activate_request : (id : String) → UserRequest
  remove_request : (fuel now : ℕ) → (id : String) → UserRequest
  features_request : (id : String) → UserRequest
  toggle_request : (id code : String) → (enabled : Bool) → UserRequest

module _ (env : Env) where
  -- The state after a request of an authenticated user, whether its handler returned or threw.
  abbrev pub respond : UserRequest → JwtPayload → World env → World env
  respond (create_request uuid dto) user w = (create env uuid dto user w).1
  respond (list_request page limit) user w = (find_page env page limit user w).1
  respond (get_request id) user w = (find_one env id user w).1
  respond (update_request fuel id dto) user w = (update env fuel id dto user w).1
  respond (suspend_request now id reason) user w = (suspend env now id reason user w).1
  respond (activate_request id) user w = (activate env id user w).1
  respond (remove_request fuel now id) user w = (remove env fuel now id user w).1
  respond (features_request id) user w = (list_tenant_features env id user w).1
  respond (toggle_request id code enabled) user w = (toggle env id code enabled user w).1

module _ (env : Env) (tt : IsTable same_tenant env.tenants) (tf : IsTable same_feature env.features)
    (user : JwtPayload) where
  update-OnlyOf :
      (fuel : ℕ) (id : String) (dto : UpdateTenantDto) (w : World env)
      → user.is_platform_admin ≡ false
      → OnlyOf env user.tenant_id w (update env fuel id dto user w).1
  unfolding update
  update-OnlyOf fuel id dto w plain = elim (Bool-cases (same_text user.tenant_id (some id))) [
    | inr other ↦ of_tables env _ w _ (ground arith)
    | inl same ↦ elim (Bool-cases (truthy dto.plan)) [
      | inl refused ↦ of_tables env _ w _ (ground arith)
      | inr passed ↦
          let after : (update env fuel id dto user w).1 ≡ (update_tenant env fuel id dto w).1 =
            ground arith in
          rw (after, same_text-eq user.tenant_id id same)
            (update_tenant-OnlyOf env tt tf id fuel dto w)
    ]
  ]

  -- A request of a user who is no platform administrator, whatever it is and whether its handler
  -- returns or throws, leaves the tenants and the feature overrides of all tenants but the user's
  -- own as they were.
  pub respond-OnlyOf :
      (request : UserRequest) (w : World env)
      → user.is_platform_admin ≡ false
      → OnlyOf env user.tenant_id w (respond env request user w)
  unfolding create find_page find_one suspend activate remove list_tenant_features toggle find_all
      find_by_id find_tenant_features
  respond-OnlyOf (create_request uuid dto) w plain = of_tables env _ w _ (ground arith)
  respond-OnlyOf (list_request page limit) w plain = of_tables env _ w _ (ground arith)
  respond-OnlyOf (get_request id) w plain = of_tables env _ w _ (ground arith)
  respond-OnlyOf (update_request fuel id dto) w plain = update-OnlyOf fuel id dto w plain
  respond-OnlyOf (suspend_request now id reason) w plain = of_tables env _ w _ (ground arith)
  respond-OnlyOf (activate_request id) w plain = of_tables env _ w _ (ground arith)
  respond-OnlyOf (remove_request fuel now id) w plain = of_tables env _ w _ (ground arith)
  respond-OnlyOf (features_request id) w plain = of_tables env _ w _ (ground arith)
  respond-OnlyOf (toggle_request id code enabled) w plain = of_tables env _ w _ (ground arith)
