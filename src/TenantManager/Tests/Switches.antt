-- ===== src/TenantManager/Tests/Switches.antt =====
-- services/tenant-manager/src/modules/features at concrete inputs.
use saas_chassis.Prelude.{
  ◌≤◌, ◌≡◌, refl, ◌∙◌, sym, ◌⊎◌, inl, inr, ◌↔◌, String, true, false, none, some, [], ◌∷◌, ok, arith,
  Elem, ◌==◌,
}
use saas_chassis.External.Repository.Lookup.{IsUnique}
use saas_chassis.External.Repository.Memory
use saas_chassis.External.Redis.{Scanned, last}
use saas_chassis.External.Redis.Memory as RedisMemory
use saas_chassis.TenantManager.Entities.{TenantFeature}
use saas_chassis.TenantManager.State.{World}
use saas_chassis.TenantManager.Features.{
  FeatureWithStatus, with_status, upserted, cache_key, is_feature_enabled, find_tenant_features,
  toggle_feature, replace_tenant_features, invalidate_tenant_feature_cache, scan_all,
}
use saas_chassis.TenantManager.Features.Toggle.{same_feature, is_feature_enabled-toggle_feature}
use saas_chassis.TenantManager.Features.Cache.{
  invalidate_tenant_feature_cache-clears, scan_all_total, feature_pattern, rounds,
}
use saas_chassis.TenantManager.Features.Replace.{replace_tenant_features-rows}
use saas_chassis.TenantManager.Features.Merged.{
  same_definition, is_feature_enabled-find_tenant_features,
}
use saas_chassis.TenantManager.Tests.{env, world, definition, override}

abbrev toggled : World env
toggled = (toggle_feature env "t1" "sms" true "u1" world).1

abbrev checked : World env
checked = (is_feature_enabled env "t1" "sms" world).1

abbrev checked_after : World env
checked_after = (is_feature_enabled env "t1" "sms" toggled).1

abbrev enabled : TenantFeature
enabled = upserted "t1" "sms" true "u1" (some override)

toggle : toggle_feature env "t1" "sms" true "u1" world ≡ (ok enabled, toggled)
unfolding toggle_feature
toggle = refl

check_after : is_feature_enabled env "t1" "sms" toggled ≡ (ok true, checked_after)
unfolding toggle_feature is_feature_enabled
check_after = refl

is_feature_enabled-toggle_feature_example : true ≡ true
is_feature_enabled-toggle_feature_example =
    is_feature_enabled-toggle_feature env RedisMemory.memory-IsRedis
      (Memory.memory-IsTable same_feature "f9") "t1" "sms" "u1" true true enabled world toggled
      checked_after toggle check_after

check : is_feature_enabled env "t1" "sms" world ≡ (ok false, checked)
unfolding is_feature_enabled
check = refl

check_again : is_feature_enabled env "t1" "sms" checked ≡ (ok false, checked)
unfolding is_feature_enabled
check_again = refl

abbrev cleared : World env
cleared = (invalidate_tenant_feature_cache env 1 "t1" checked).1

invalidate : invalidate_tenant_feature_cache env 1 "t1" checked ≡ (ok tt, cleared)
unfolding invalidate_tenant_feature_cache is_feature_enabled
invalidate = refl

invalidate_tenant_feature_cache-clears_example :
    env.redis.value cleared.redis (cache_key "t1" "sms") ≡ none
invalidate_tenant_feature_cache-clears_example =
    invalidate_tenant_feature_cache-clears env RedisMemory.memory-IsRedis 1 "t1"
      (cache_key "t1" "sms") checked cleared invalidate refl

abbrev one_key : World env
one_key = record world { redis = ("feature:t1:sms", "1") ∷ [] }

abbrev iteration : Scanned env.redis (feature_pattern "t1") one_key.redis 0 ("feature:t1:sms" ∷ [])
iteration = last 0 ("feature:t1:sms" ∷ []) refl

one_round : rounds iteration ≤ 3
unfolding rounds
one_round = omega arith

scan_all_total_example :
    scan_all env 3 0 (feature_pattern "t1") [] one_key ≡ (ok ("feature:t1:sms" ∷ []), one_key)
scan_all_total_example = scan_all_total env one_key (feature_pattern "t1") iteration 3 [] one_round

abbrev replaced : World env
replaced = (replace_tenant_features env "t1" ("a" ∷ "b" ∷ []) "u1" world).1

replace : replace_tenant_features env "t1" ("a" ∷ "b" ∷ []) "u1" world ≡ (ok tt, replaced)
unfolding replace_tenant_features
replace = refl

replace_tenant_features-rows_example : env.features.Has replaced.features override ↔ (
    ((c : String) × Elem {A = String} c ("a" ∷ "b" ∷ [])
      × (override ≡ upserted "t1" c true "u1" none))
    ⊎ ((override.tenant_id == "t1") ≡ false) × env.features.Has world.features override)
replace_tenant_features-rows_example =
    replace_tenant_features-rows env (Memory.memory-IsTable same_feature "f9") "t1" "u1"
      ("a" ∷ "b" ∷ []) world replaced override replace

one_feature : IsUnique same_feature env.features world.features
one_feature = record {
  at = λ x y hx hy e. elim hx [
    | inl p ↦ elim hy [ inl q ↦ p ∙ sym q | inr n ↦ elim n [ ] ]
    | inr n ↦ elim n [ ]
  ];
}

one_definition : IsUnique same_definition env.definitions world.definitions
one_definition = record {
  at = λ x y hx hy e. elim hx [
    | inl p ↦ elim hy [ inl q ↦ p ∙ sym q | inr n ↦ elim n [ ] ]
    | inr n ↦ elim n [ ]
  ];
}

abbrev shown : FeatureWithStatus
shown = with_status world.features definition

listed : find_tenant_features env "t1" world ≡ (ok (shown ∷ []), world)
unfolding find_tenant_features
listed = refl

is_feature_enabled-find_tenant_features_example : false ≡ shown.is_enabled
is_feature_enabled-find_tenant_features_example =
    is_feature_enabled-find_tenant_features env RedisMemory.memory-IsRedis
      (Memory.memory-IsTable same_feature "f9") (Memory.memory-IsTable same_definition "d9") world
      world checked one_feature one_definition "t1" "sms" (shown ∷ []) shown false refl listed check
      (inl refl) refl
