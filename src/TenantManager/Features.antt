-- ===== src/TenantManager/Features.antt =====
-- services/tenant-manager/src/modules/features/features.service.ts
pub mod Toggle
pub mod Cache
pub mod Replace
pub mod Merged
pub mod Frames
pub mod Progress
pub mod Overrides
pub mod Refinement
pub mod Representation
use saas_chassis.Prelude.{
  ℕ, zero, suc, String, ◌≡◌, refl, Bool, true, false, not, ◌&&◌, Option, none, some, List, [], ◌∷◌,
  ◌++◌, map, Result, ok, err, Action, pure, throw, ◌>>=◌, ◌>>◌, ◌==◌, required, for_each, not_found,
  template, if◌then◌else◌, is_some, nat_eq, error, when,
}
use saas_chassis.TenantManager.Entities.{
  FeatureDefinition, TenantFeature, Message, tenant_feature_toggled,
}
use saas_chassis.TenantManager.State.{
  Env, World, find_one_definition, find_definitions, find_one_feature, find_features, save_feature,
  delete_features, redis_get, redis_setex, redis_del, redis_scan, publish,
}

pub record FeatureWithStatus : Type 0 where
  pub code : String
  pub name : String
  pub description : Option String
  pub category : String
  pub default_enabled : Bool
  pub requires_plan : Option String
  pub is_enabled : Bool
  pub has_override : Bool

abbrev pub cache_ttl_seconds : ℕ
cache_ttl_seconds = 300

abbrev pub cache_key : String → String → String
cache_key tenant_id code = template ("feature:" ∷ tenant_id ∷ ":" ∷ code ∷ [])

-- `enabled ? '1' : '0'`
abbrev pub encode : Bool → String
encode true = "1"
encode false = "0"

-- `where: { tenantId, featureCode }`
abbrev pub is_override : String → String → TenantFeature → Bool
is_override tenant_id code f = f.tenant_id == tenant_id && f.feature_code == code

abbrev pub has_code : String → FeatureDefinition → Bool
has_code code d = d.code == code

-- `overrideMap.get(code)`: of two entries with one key the later one stays in a `Map`.
abbrev pub map_get : String → List TenantFeature → Option TenantFeature
map_get code [] = none
map_get code (o ∷ os) = elim (map_get code os) [
  | none ↦ if o.feature_code == code then some o else none
  | some later ↦ some later
]

-- `override !== undefined ? override.isEnabled : def.defaultEnabled`
abbrev pub enabled_by_override : Option TenantFeature → Bool → Bool
enabled_by_override none d = d
enabled_by_override (some o) d = o.is_enabled

abbrev pub with_status : List TenantFeature → FeatureDefinition → FeatureWithStatus
with_status overrides d = record {
  code = d.code;
  name = d.name;
  description = d.description;
  category = d.category;
  default_enabled = d.default_enabled;
  requires_plan = d.requires_plan;
  is_enabled = enabled_by_override (map_get d.code overrides) d.default_enabled;
  has_override = is_some (map_get d.code overrides);
}

-- `definition?.defaultEnabled ?? false`
abbrev pub default_of : Option FeatureDefinition → Bool
default_of none = false
default_of (some d) = d.default_enabled

-- The override to save: the found one with new values, or a new one.
abbrev pub upserted : String → String → Bool → String → Option TenantFeature → TenantFeature
upserted tenant_id code enabled user (some f) = record f {
  is_enabled = enabled;
  enabled_by = some user;
}
upserted tenant_id code enabled user none = record {
  tenant_id = tenant_id;
  feature_code = code;
  is_enabled = enabled;
  enabled_by = some user;
}

module _ (env : Env) where
  -- The order of the definitions, by category and code, is left to the query.
  pub find_all_definitions : Action (World env) (List FeatureDefinition)
  find_all_definitions = find_definitions env (λ _. true)

  unfoldable pub find_definition_by_code : String → Action (World env) FeatureDefinition
  find_definition_by_code code = do
    d ← find_one_definition env (has_code code)
    required d (not_found (template ("Feature definition '" ∷ code ∷ "' not found" ∷ [])))

  unfoldable pub find_tenant_features : String → Action (World env) (List FeatureWithStatus)
  find_tenant_features tenant_id = do
    definitions ← find_definitions env (λ _. true)
    overrides ← find_features env (λ f. f.tenant_id == tenant_id)
    pure (map (with_status overrides) definitions)

  -- The value from the database goes to the cache and to the caller.
  cache_and_return : String → String → Bool → Action (World env) Bool
  cache_and_return tenant_id code enabled = do
    redis_setex env (cache_key tenant_id code) cache_ttl_seconds (encode enabled)
    pure enabled

  from_default : String → String → Option TenantFeature → Action (World env) Bool
  unfolding cache_and_return
  from_default tenant_id code (some override) = cache_and_return tenant_id code override.is_enabled
  from_default tenant_id code none = do
    definition ← find_one_definition env (has_code code)
    cache_and_return tenant_id code (default_of definition)

  from_database : String → String → Option String → Action (World env) Bool
  unfolding from_default
  from_database tenant_id code (some cached) = pure (cached == "1")
  from_database tenant_id code none = do
    override ← find_one_feature env (is_override tenant_id code)
    from_default tenant_id code override

  unfoldable pub is_feature_enabled : String → String → Action (World env) Bool
  unfolding from_database
  is_feature_enabled tenant_id code = do
    cached ← redis_get env (cache_key tenant_id code)
    from_database tenant_id code cached

  unfoldable pub toggle_feature :
      String → String → (enabled : Bool) → (user : String) → Action (World env) TenantFeature
  toggle_feature tenant_id code enabled user = do
    definition ← find_one_definition env (has_code code)
    required definition
        (not_found (template ("Feature '" ∷ code ∷ "' is not a known feature code" ∷ [])))
    found ← find_one_feature env (is_override tenant_id code)
    save_feature env (upserted tenant_id code enabled user found)
    redis_del env (cache_key tenant_id code ∷ [])
    publish env "tenant.feature-toggled" (tenant_feature_toggled tenant_id code enabled)
    pure (upserted tenant_id code enabled user found)

  unfoldable pub bulk_upsert_features :
      String → List String → Bool → (user : String) → Action (World env) (Unit {0})
  bulk_upsert_features tenant_id codes enabled user = for_each codes λ code. do
    found ← find_one_feature env (is_override tenant_id code)
    save_feature env (upserted tenant_id code enabled user found)

  -- One round of the loop of `replaceTenantFeatures`.
  abbrev pub insert_feature : String → String → String → Action (World env) (Unit {0})
  insert_feature tenant_id user code = save_feature env (upserted tenant_id code true user none)

  unfoldable pub replace_tenant_features :
      String → List String → (user : String) → Action (World env) (Unit {0})
  replace_tenant_features tenant_id codes user = do
    delete_features env (λ f. f.tenant_id == tenant_id)
    for_each codes (insert_feature tenant_id user)

  -- The `do … while (cursor !== 0)` of `invalidateTenantFeatureCache`, with fuel.
  pub scan_all : ℕ → ℕ → String → List String → Action (World env) (List String)
  scan_all zero cursor pattern keys = throw (error "out of fuel")
  scan_all (suc fuel) cursor pattern keys = redis_scan env cursor pattern >>= λ (next, batch).
      elim (nat_eq next 0) [
        | true ↦ pure (keys ++ batch)
        | false ↦ scan_all fuel next pattern (keys ++ batch)
      ]

  delete_found : List String → Action (World env) (Unit {0})
  delete_found [] = pure tt
  delete_found (k ∷ ks) = redis_del env (k ∷ ks)

  unfoldable pub invalidate_tenant_feature_cache :
      (fuel : ℕ) → String → Action (World env) (Unit {0})
  unfolding scan_all delete_found
  invalidate_tenant_feature_cache fuel tenant_id = do
    keys ← scan_all fuel 0 (template ("feature:" ∷ tenant_id ∷ ":*" ∷ [])) []
    delete_found keys
