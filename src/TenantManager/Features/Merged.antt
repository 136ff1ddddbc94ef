-- ===== src/TenantManager/Features/Merged.antt =====
-- services/tenant-manager/src/modules/features/features.service.ts: the check of one feature and
-- the merged view of all features give one answer.
use saas_chassis.Prelude.{
  ◌≡◌, ap, sym, ◌∙◌, inl, inr, String, Bool, true, Option, none, some, List, [], ◌∷◌, map, ok,
  arith, eq_iff, ◌==◌, Elem, elem-map, Option-cases, Result-cases,
}
use saas_chassis.External.Repository.{IsTable}
use saas_chassis.External.Repository.Lookup.{IsUnique}
use saas_chassis.External.Redis.{IsRedis}
use saas_chassis.TenantManager.Entities.{TenantFeature, FeatureDefinition}
use saas_chassis.TenantManager.State.{Env, World}
use saas_chassis.TenantManager.Features.{
  FeatureWithStatus, cache_key, is_override, map_get, with_status, is_feature_enabled,
  find_tenant_features, default_of, has_code, enabled_by_override,
}
use saas_chassis.TenantManager.Features.Toggle.{same_feature, is_feature_enabled-missed}

-- The unique key (code) of feature_definitions.
abbrev pub same_definition : FeatureDefinition → FeatureDefinition → Bool
same_definition d e = d.code == e.code

map_get-some :
    (code : String) (os : List TenantFeature) (f : TenantFeature)
    → map_get code os ≡ some f
    → Elem f os × (f.feature_code ≡ code)
map_get-some code [] f h = cc
map_get-some code (o ∷ os) f h = elim (Option-cases (map_get code os)) [
  | inl absent ↦ (inl (ground arith), (eq_iff f.feature_code code).0 (ground arith))
  | inr (g, later) ↦ let (m, e) = map_get-some code os f (ground arith) in (inr m, e)
]

map_get-none :
    (code : String) (os : List TenantFeature) (f : TenantFeature)
    → map_get code os ≡ none
    → Elem f os
    → f.feature_code ≡ code
    → ⊥
map_get-none code [] f h m e = m
map_get-none code (o ∷ os) f h (inl q) e = ground (arith, (eq_iff f.feature_code code).1 e)
map_get-none code (o ∷ os) f h (inr m) e = map_get-none code os f (ground arith) m e

module _ (env : Env) (tenant_id : String) (w w' : World env) where
  merged_list :
      (xs : List FeatureWithStatus)
      → find_tenant_features env tenant_id w ≡ (ok xs, w')
      → (ds : List FeatureDefinition) × (os : List TenantFeature) × (env.definitions.find
            (λ _. true)
            w.definitions
          ≡ ok ds)
        × (env.features.find (λ f. f.tenant_id == tenant_id) w.features ≡ ok os)
        × (xs ≡ map (with_status os) ds)
  unfolding find_tenant_features
  merged_list xs h = elim (Result-cases (env.definitions.find (λ _. true) w.definitions)) [
    | inr (e, q) ↦ cc (rw q at h)
    | inl (ds, q) ↦
        elim (Result-cases (env.features.find (λ f. f.tenant_id == tenant_id) w.features)) [
          | inr (e, q') ↦ cc (rw (q, q') at h)
          | inl (os, q') ↦ (ds, os, q, q', ground arith)
        ]
  ]

module _ (env : Env) (redis : IsRedis env.redis) (t : IsTable same_feature env.features)
    (d : IsTable same_definition env.definitions) (w w' w'' : World env)
    (unique_features : IsUnique same_feature env.features w.features)
    (unique_definitions : IsUnique same_definition env.definitions w.definitions)
    (tenant_id code : String) where
  -- The override in the merged view is the one that a query by the unique key finds.
  override_agrees :
      (os : List TenantFeature) (f : TenantFeature)
      → env.features.find (λ f. f.tenant_id == tenant_id) w.features ≡ ok os
      → env.features.find_one (is_override tenant_id code) w.features ≡ ok (some f)
      → map_get code os ≡ some f
  override_agrees os f listed found =
      let (has, key) = t.find_one_some (is_override tenant_id code) w.features f found in
      let own : (f.tenant_id == tenant_id) ≡ true = ground arith in
      let coded : f.feature_code ≡ code = (eq_iff f.feature_code code).0 (ground arith) in
      elim (Option-cases (map_get code os)) [
        | inl absent ↦ absurd (
            map_get-none code os f absent
              ((t.find_all (λ f. f.tenant_id == tenant_id) w.features os f listed).1 (has, own))
              coded)
        | inr (g, e) ↦
            let (member, code_g) = map_get-some code os g e in
            let (has_g, own_g) =
              (t.find_all (λ f. f.tenant_id == tenant_id) w.features os g listed).0 member in
            let same : same_feature g f ≡ true = ground (
              arith,
              eq_iff g.tenant_id tenant_id,
              eq_iff f.tenant_id tenant_id,
              eq_iff g.tenant_id f.tenant_id,
              eq_iff g.feature_code f.feature_code,
            ) in
            e ∙ ap some (unique_features.at g f has_g has same)
      ]

  no_override_agrees :
      (os : List TenantFeature)
      → env.features.find (λ f. f.tenant_id == tenant_id) w.features ≡ ok os
      → env.features.find_one (is_override tenant_id code) w.features ≡ ok none
      → map_get code os ≡ none
  no_override_agrees os listed found = elim (Option-cases (map_get code os)) [
    | inl absent ↦ absent
    | inr (g, e) ↦
        let (member, code_g) = map_get-some code os g e in
        let (has_g, own_g) =
          (t.find_all (λ f. f.tenant_id == tenant_id) w.features os g listed).0 member in
        let missed = t.find_one_none (is_override tenant_id code) w.features g found has_g in
        ground (arith, (eq_iff g.feature_code code).1 code_g)
  ]

  default_agrees :
      (ds : List FeatureDefinition) (x : FeatureDefinition) (o : Option FeatureDefinition)
      → env.definitions.find (λ _. true) w.definitions ≡ ok ds
      → Elem x ds
      → x.code ≡ code
      → env.definitions.find_one (has_code code) w.definitions ≡ ok o
      → default_of o ≡ x.default_enabled
  default_agrees ds x none listed member coded found =
      let (has, _) = (d.find_all (λ _. true) w.definitions ds x listed).0 member in
      let missed = d.find_one_none (has_code code) w.definitions x found has in
      cc ((eq_iff x.code code).1 coded)
  default_agrees ds x (some y) listed member coded found =
      let (has, _) = (d.find_all (λ _. true) w.definitions ds x listed).0 member in
      let (has_y, key) = d.find_one_some (has_code code) w.definitions y found in
      let same = (eq_iff y.code x.code).1 ((eq_iff y.code code).0 key ∙ sym coded) in
      ap (λ (z : FeatureDefinition). z.default_enabled) (unique_definitions.at y x has_y has same)

  -- With unique keys in both tables and nothing in the cache for the feature, the check of a
  -- feature answers what the merged view of the tenant's features says of it.
  pub is_feature_enabled-find_tenant_features :
      (xs : List FeatureWithStatus) (x : FeatureWithStatus) (b : Bool)
      → env.redis.value w.redis (cache_key tenant_id code) ≡ none
      → find_tenant_features env tenant_id w ≡ (ok xs, w')
      → is_feature_enabled env tenant_id code w ≡ (ok b, w'')
      → Elem x xs
      → x.code ≡ code
      → b ≡ x.is_enabled
  is_feature_enabled-find_tenant_features xs x b absent merged checked member coded =
      let (ds, os, definitions, overrides, eq) = merged_list env tenant_id w w' xs merged in
      let (y, listed, shown) = (elem-map (with_status os) ds x).0 (rw (← eq) member) in
      let code_y : y.code ≡ code = ap (λ (z : FeatureWithStatus). z.code) (sym shown) ∙ coded in
      let enabled : x.is_enabled ≡ enabled_by_override (map_get code os) y.default_enabled =
        ap (λ (z : FeatureWithStatus). z.is_enabled) shown
        ∙ ap (λ c. enabled_by_override (map_get c os) y.default_enabled) code_y in
      elim (is_feature_enabled-missed env redis tenant_id code w w'' b absent checked) [
        | inl (f, found, e) ↦
            e
            ∙ sym (
                enabled
                ∙ ap (λ o. enabled_by_override o y.default_enabled)
                    (override_agrees os f overrides found))
        | inr (o, found, default, e) ↦
            e
            ∙ default_agrees ds y o definitions listed code_y default
            ∙ sym (
                enabled
                ∙ ap (λ o. enabled_by_override o y.default_enabled)
                    (no_override_agrees os overrides found))
      ]
