-- ===== src/TenantManager/Tests/Refined.antt =====
-- The map of overrides of services/tenant-manager at concrete inputs.
use saas_chassis.Prelude.{
  ◌≡◌, ◌⊎◌, refl, true, false, none, some, Option, List, [], ◌∷◌, ok, for_each,
}
use saas_chassis.External.Repository.Memory
use saas_chassis.External.Redis.Memory as RedisMemory
use saas_chassis.TenantManager.Entities.{TenantFeature, FeatureDefinition}
use saas_chassis.TenantManager.State.{World}
use saas_chassis.TenantManager.Features.{
  has_code, default_of, is_feature_enabled, toggle_feature, bulk_upsert_features,
  replace_tenant_features,
}
use saas_chassis.TenantManager.Features.Toggle.{same_feature}
use saas_chassis.TenantManager.Features.Merged.{same_definition}
use saas_chassis.TenantManager.Features.Overrides.{
  Overrides, Command, toggle, bulk_upsert, replace, specify_all, execute, Represents,
}
use saas_chassis.TenantManager.Features.Refinement.{is_feature_enabled-refines}
use saas_chassis.TenantManager.Features.Progress.{toggle_feature-check}
use saas_chassis.TenantManager.Tests.{env, world, definition}

abbrev no_overrides : Overrides
no_overrides t c = none

abbrev bare : World env
bare = record world { features = [] }

bare-Represents : Represents env no_overrides bare.features
bare-Represents = record { sound = λ f has. elim has [ ]; complete = λ t c b e. cc }

abbrev commands : List Command
commands =
    toggle "t1" "sms" false "u1"
    ∷ replace "t1" ("api" ∷ "sms" ∷ []) "u1"
    ∷ bulk_upsert "t1" ("api" ∷ []) false "u1"
    ∷ []

abbrev done : World env
done = (for_each commands (execute env) bare).1

executed : for_each commands (execute env) bare ≡ (ok tt, done)
unfolding toggle_feature replace_tenant_features bulk_upsert_features
executed = refl

abbrev asked : World env
asked = (is_feature_enabled env "t1" "api" done).1

cold : env.redis.value done.redis "feature:t1:api" ≡ none
unfolding toggle_feature replace_tenant_features bulk_upsert_features
cold = refl

answered : is_feature_enabled env "t1" "api" done ≡ (ok false, asked)
unfolding is_feature_enabled toggle_feature replace_tenant_features bulk_upsert_features
answered = refl

is_feature_enabled-refines_example :
    (specify_all commands no_overrides "t1" "api" ≡ some false)
    ⊎ ((specify_all commands no_overrides "t1" "api" ≡ none)
        × ((d : Option FeatureDefinition) × (env.definitions.find_one
                (has_code "api")
                done.definitions
              ≡ ok d)
            × (false ≡ default_of d)))
is_feature_enabled-refines_example =
    is_feature_enabled-refines env (Memory.memory-IsTable same_feature "f9")
      RedisMemory.memory-IsRedis no_overrides commands bare done asked "t1" "api" false
      bare-Represents executed cold answered

toggle_feature-check_example :
    (x : TenantFeature) × (w' : World env) × (w'' : World env) × (toggle_feature env "t1" "sms" true
        "u1" world
      ≡ (ok x, w'))
    × (is_feature_enabled env "t1" "sms" w' ≡ (ok true, w''))
toggle_feature-check_example =
    toggle_feature-check env (Memory.memory-IsAvailable same_definition "d9")
      (Memory.memory-IsAvailable same_feature "f9") RedisMemory.memory-IsAvailable
      (Memory.memory-IsTable same_feature "f9") RedisMemory.memory-IsRedis "t1" "sms" "u1" true
      definition world refl
