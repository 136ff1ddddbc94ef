-- ===== src/TenantManager/Features/Progress.antt =====
-- services/tenant-manager/src/modules/features/features.service.ts: a toggle and the check after it
-- return where the database and Redis answer.
use saas_chassis.Prelude.{
  ◌≡◌, ap, ◌∙◌, ◌==◌, Option-cases, inl, inr, String, Bool, some, [], ◌∷◌, ok, arith,
}
use saas_chassis.External.Repository as Repositories
use saas_chassis.External.Repository.{IsTable}
use saas_chassis.External.Redis as Caches
use saas_chassis.External.Redis.{IsRedis}
use saas_chassis.TenantManager.Entities.{TenantFeature, FeatureDefinition}
use saas_chassis.TenantManager.State.{Env, World}
use saas_chassis.TenantManager.Features.{
  cache_key, is_override, has_code, upserted, encode, default_of, is_feature_enabled,
  toggle_feature,
}
use saas_chassis.TenantManager.Features.Toggle.{same_feature, is_feature_enabled-toggle_feature}

module _ (env : Env) (definitions : Repositories.IsAvailable env.definitions)
    (features : Repositories.IsAvailable env.features) (cache : Caches.IsAvailable env.redis) where
  toggle_feature-returns :
      (tenant_id code user : String) (enabled : Bool) (d : FeatureDefinition) (w : World env)
      → env.definitions.find_one (has_code code) w.definitions ≡ ok (some d)
      → (x : TenantFeature) × (w' : World env) × (toggle_feature env tenant_id code enabled user w
          ≡ (ok x, w'))
  unfolding toggle_feature
  toggle_feature-returns tenant_id code user enabled d w known =
      let (found, q) = features.found (is_override tenant_id code) w.features in
      let x = upserted tenant_id code enabled user found in
      let saved = features.saved x w.features in
      let deleted = cache.deleted (cache_key tenant_id code ∷ []) w.redis in
      (x, (toggle_feature env tenant_id code enabled user w).1, ground arith)

  is_feature_enabled-returns :
      (tenant_id code : String) (w : World env)
      → (b : Bool) × (w' : World env) × (is_feature_enabled env tenant_id code w ≡ (ok b, w'))
  unfolding is_feature_enabled
  is_feature_enabled-returns tenant_id code w =
      let key = cache_key tenant_id code in
      let (cached, c) = cache.got key w.redis in
      let (found, q) = features.found (is_override tenant_id code) w.features in
      let (d, e) = definitions.found (has_code code) w.definitions in
      let after = is_feature_enabled env tenant_id code w in
      elim (Option-cases cached) [
        | inr (v, held) ↦ (v == "1", after.1, ground arith)
        | inl cold ↦ elim (Option-cases found) [
          | inr (f, there) ↦
              let set = cache.set key (encode f.is_enabled) 300 w.redis in
              (f.is_enabled, after.1, ground arith)
          | inl absent ↦
              let set = cache.set key (encode (default_of d)) 300 w.redis in
              (default_of d, after.1, ground arith)
        ]
      ]

  -- Where the database and Redis answer, the toggle of a feature with a definition returns, the
  -- check after it returns too, and answers the new value.
  pub toggle_feature-check :
      IsTable same_feature env.features
      → IsRedis env.redis
      → (tenant_id code user : String) (enabled : Bool) (d : FeatureDefinition) (w : World env)
      → env.definitions.find_one (has_code code) w.definitions ≡ ok (some d)
      → (x : TenantFeature) × (w' : World env) × (w'' : World env) × (toggle_feature env tenant_id
            code enabled user w
          ≡ (ok x, w'))
        × (is_feature_enabled env tenant_id code w' ≡ (ok enabled, w''))
  toggle_feature-check table redis tenant_id code user enabled d w known =
      let (x, w', toggled) = toggle_feature-returns tenant_id code user enabled d w known in
      let (b, w'', checked) = is_feature_enabled-returns tenant_id code w' in
      let same =
        is_feature_enabled-toggle_feature env redis table tenant_id code user enabled b x w w' w''
          toggled checked in
      (x, w', w'', toggled, checked ∙ ap (λ u. (ok u, w'')) same)
