-- ===== src/TenantManager/Features/Refinement.antt =====
-- services/tenant-manager/src/modules/features/features.service.ts refines a map from a tenant and
-- a feature code to an override.
use saas_chassis.Prelude.{
  ◌≡◌, ap, sym, ◌∙◌, ◌⊎◌, inl, inr, String, Bool, Option, none, some, List, ok, arith, eq_iff,
  for_each, Option-cases,
}
use saas_chassis.External.Repository.{IsTable}
use saas_chassis.External.Redis.{IsRedis}
use saas_chassis.TenantManager.Entities.{FeatureDefinition}
use saas_chassis.TenantManager.State.{Env, World}
use saas_chassis.TenantManager.Features.{
  cache_key, is_override, has_code, default_of, is_feature_enabled,
}
use saas_chassis.TenantManager.Features.Overrides.{
  Overrides, Command, specify_all, execute, Represents,
}
use saas_chassis.TenantManager.Features.Toggle.{same_feature, is_feature_enabled-missed}
use saas_chassis.TenantManager.Features.Representation.{execute_all-Represents}

module _ (env : Env) (table : IsTable same_feature env.features) where
  -- The service refines a map of overrides. Where the table represents a map, and any sequence of
  -- toggles, bulk changes and replacements has returned, a check that finds nothing in the cache
  -- and returns answers the override in the map that the sequence makes of it, or without one the
  -- default of the feature.
  pub is_feature_enabled-refines :
      IsRedis env.redis
      → (o : Overrides) (commands : List Command) (w w' v : World env) (t c : String) (b : Bool)
      → Represents env o w.features
      → for_each commands (execute env) w ≡ (ok tt, w')
      → env.redis.value w'.redis (cache_key t c) ≡ none
      → is_feature_enabled env t c w' ≡ (ok b, v)
      → (specify_all commands o t c ≡ some b)
        ⊎ ((specify_all commands o t c ≡ none)
            × ((d : Option FeatureDefinition) × (env.definitions.find_one
                    (has_code c)
                    w'.definitions
                  ≡ ok d)
                × (b ≡ default_of d)))
  is_feature_enabled-refines redis o commands w w' v t c b r h cold checked =
      let after = specify_all commands o in
      let r' = execute_all-Represents env table o commands w w' h r in
      elim (is_feature_enabled-missed env redis t c w' v b cold checked) [
        | inl (f, q, e) ↦
            let (has, key) = table.find_one_some (is_override t c) w'.features f q in
            let et : f.tenant_id ≡ t = (eq_iff f.tenant_id t).0 (ground arith) in
            let ec : f.feature_code ≡ c = (eq_iff f.feature_code c).0 (ground arith) in
            inl (
              sym (ap (λ u. after u c) et)
              ∙ sym (ap (λ u. after f.tenant_id u) ec)
              ∙ r'.sound f has
              ∙ ap some (sym e))
        | inr (d, q, found, e) ↦ elim (Option-cases (after t c)) [
          | inl none_there ↦ inr (none_there, (d, found, e))
          | inr (b', there) ↦
              let (f, has, key, _) = r'.complete t c b' there in
              cc (table.find_one_none (is_override t c) w'.features f q has)
        ]
      ]
