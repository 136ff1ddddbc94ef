-- ===== src/TenantManager/Features/Toggle.antt =====
-- services/tenant-manager/src/modules/features/features.service.ts: what a check answers after a
-- toggle, and after another check.
use saas_chassis.Prelude.{
  ◌≡◌, refl, ap, ◌∙◌, ◌⊎◌, String, Bool, true, ◌&&◌, Option, none, some, [], ◌∷◌, ok, arith,
  eq_refl, eq_iff, ◌==◌, Result-cases, inl, inr,
}
use saas_chassis.External.Repository.{IsTable}
use saas_chassis.External.Repository.Lookup.{find_one-save_self}
use saas_chassis.External.Redis.{IsRedis}
use saas_chassis.TenantManager.Entities.{TenantFeature, FeatureDefinition}
use saas_chassis.TenantManager.State.{Env, World}
use saas_chassis.TenantManager.Features.{
  cache_key, is_override, upserted, is_feature_enabled, toggle_feature, default_of, has_code,
}

-- The unique key (tenant_id, feature_code) of tenant_features.
abbrev pub same_feature : TenantFeature → TenantFeature → Bool
same_feature f g = f.tenant_id == g.tenant_id && f.feature_code == g.feature_code

module _ (env : Env) (tenant_id code user : String) (enabled : Bool) (w : World env) where
  -- What a toggle that returns has done to the table and the cache.
  pub record Toggled (w' : World env) : Type 0 where
    pub found : Option TenantFeature
    pub looked : env.features.find_one (is_override tenant_id code) w.features ≡ ok found
    pub saved :
        env.features.save (upserted tenant_id code enabled user found) w.features
        ≡ (ok tt, w'.features)
    pub deleted : env.redis.del (cache_key tenant_id code ∷ []) w.redis ≡ (ok tt, w'.redis)

  pub toggle_feature-Toggled :
      (saved : TenantFeature) (w' : World env)
      → toggle_feature env tenant_id code enabled user w ≡ (ok saved, w')
      → Toggled w'
  unfolding toggle_feature
  toggle_feature-Toggled saved w' h =
      elim (Result-cases (env.definitions.find_one (has_code code) w.definitions)) [
        | inr (e, q) ↦ ground arith
        | inl (none, q) ↦ ground arith
        | inl (some d, q) ↦
            elim (Result-cases (env.features.find_one (is_override tenant_id code) w.features)) [
              | inr (e, q') ↦ ground arith
              | inl (found, q') ↦ record {
                found = found;
                looked = q';
                saved = ground arith;
                deleted = ground arith;
              }
            ]
      ]

module _ (env : Env) (redis : IsRedis env.redis) (tenant_id code : String) (w w' : World env) where
  -- A check that misses the cache answers by the override, or else by the feature's default.
  pub is_feature_enabled-missed :
      (b : Bool)
      → env.redis.value w.redis (cache_key tenant_id code) ≡ none
      → is_feature_enabled env tenant_id code w ≡ (ok b, w')
      → ((f : TenantFeature) × (env.features.find_one (is_override tenant_id code) w.features
            ≡ ok (some f))
          × (b ≡ f.is_enabled))
        ⊎ ((d : Option FeatureDefinition) × (env.features.find_one
                (is_override tenant_id code)
                w.features
              ≡ ok none)
            × (env.definitions.find_one (has_code code) w.definitions ≡ ok d)
            × (b ≡ default_of d))
  unfolding is_feature_enabled
  is_feature_enabled-missed b absent h =
      elim (Result-cases (env.redis.get (cache_key tenant_id code) w.redis)) [
        | inr (e, q) ↦ ground arith
        | inl (some v, q) ↦ cc (redis.get_value (cache_key tenant_id code) w.redis (some v) q)
        | inl (none, q) ↦
            elim (Result-cases (env.features.find_one (is_override tenant_id code) w.features)) [
              | inr (e, q') ↦ ground arith
              | inl (some f, q') ↦ inl (f, q', ground arith)
              | inl (none, q') ↦
                  elim (Result-cases (env.definitions.find_one (has_code code) w.definitions)) [
                    | inr (e, q'') ↦ ground arith
                    | inl (d, q'') ↦ inr (d, q', q'', ground arith)
                  ]
            ]
      ]

pub is_override-upserted :
    (tenant_id code user : String) (enabled : Bool) (found : Option TenantFeature)
    → ((f : TenantFeature) → found ≡ some f → is_override tenant_id code f ≡ true)
    → (is_override tenant_id code (upserted tenant_id code enabled user found) ≡ true)
      × ((upserted tenant_id code enabled user found).is_enabled ≡ enabled)
is_override-upserted tenant_id code user enabled none h =
    (rw (eq_refl tenant_id, eq_refl code), refl)
is_override-upserted tenant_id code user enabled (some f) h = (h f refl, refl)

-- The key of a row that a query by its key finds.
pub same_feature-is_override :
    (tenant_id code : String) (f g : TenantFeature)
    → is_override tenant_id code f ≡ true
    → same_feature f g ≡ is_override tenant_id code g
same_feature-is_override tenant_id code f g h = ground (
  arith,
  eq_iff f.tenant_id tenant_id,
  eq_iff f.feature_code code,
  eq_iff f.tenant_id g.tenant_id,
  eq_iff g.tenant_id tenant_id,
  eq_iff f.feature_code g.feature_code,
  eq_iff g.feature_code code,
)

module _ (env : Env) (redis : IsRedis env.redis) (t : IsTable same_feature env.features) where
  -- After a toggle has returned, a check of that feature that returns answers the new value.
  pub is_feature_enabled-toggle_feature :
      (tenant_id code user : String) (enabled b : Bool) (saved : TenantFeature)
      (w w' w'' : World env)
      → toggle_feature env tenant_id code enabled user w ≡ (ok saved, w')
      → is_feature_enabled env tenant_id code w' ≡ (ok b, w'')
      → b ≡ enabled
  is_feature_enabled-toggle_feature tenant_id code user enabled b saved w w' w'' toggled checked =
      let d = toggle_feature-Toggled env tenant_id code user enabled w saved w' toggled in
      let key = cache_key tenant_id code in
      let absent : env.redis.value w'.redis key ≡ none =
        redis.del_value (key ∷ []) w.redis w'.redis key d.deleted ∙ rw (eq_refl key) refl in
      let x = upserted tenant_id code enabled user d.found in
      let (here, value) = is_override-upserted tenant_id code user enabled d.found (λ f e.
        (t.find_one_some (is_override tenant_id code) w.features f (d.looked ∙ ap ok e)).1) in
      let now_found =
        λ (o : Option TenantFeature)
            (q : env.features.find_one (is_override tenant_id code) w'.features ≡ ok o).
          find_one-save_self t (is_override tenant_id code) x w.features w'.features o
            (λ g. same_feature-is_override tenant_id code x g here) here d.saved q in
      elim (is_feature_enabled-missed env redis tenant_id code w' w'' b absent checked) [
        | inl (f, q, e) ↦ cc (now_found (some f) q)
        | inr (_, q, _, _) ↦ cc (now_found none q)
      ]
