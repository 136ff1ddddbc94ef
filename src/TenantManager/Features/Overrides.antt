-- ===== src/TenantManager/Features/Overrides.antt =====
-- What services/tenant-manager/src/modules/features/features.service.ts promises: a map from a tenant
-- and a feature code to an override, its operations, and the table that represents it.
use saas_chassis.Prelude.{
  ◌≡◌, String, Bool, true, ◌&&◌, Option, none, some, List, [], ◌∷◌, ◌==◌, if◌then◌else◌, Action,
  pure, ◌>>◌, includes,
}
use saas_chassis.TenantManager.Entities.{TenantFeature}
use saas_chassis.TenantManager.State.{Env, World}
use saas_chassis.TenantManager.Features.{
  is_override, toggle_feature, bulk_upsert_features, replace_tenant_features,
}

-- The abstract state: the override of a tenant's feature, if there is one.
abbrev pub Overrides : Type 0
Overrides = (tenant_id code : String) → Option Bool

abbrev pub set_override : (tenant_id code : String) → Bool → Overrides → Overrides
set_override tenant_id code enabled o t c =
    if t == tenant_id && c == code then some enabled else o t c

abbrev pub set_overrides : String → List String → Bool → Overrides → Overrides
set_overrides tenant_id [] enabled o = o
set_overrides tenant_id (c ∷ codes) enabled o =
    set_overrides tenant_id codes enabled (set_override tenant_id c enabled o)

abbrev pub replace_overrides : String → List String → Overrides → Overrides
replace_overrides tenant_id codes o t c =
    if t == tenant_id then (if includes codes c then some true else none) else o t c

-- An operation of the service on the overrides, with its user.
pub data Command : Type 0 where
  toggle : (tenant_id code : String) → (enabled : Bool) → (user : String) → Command
  bulk_upsert : String → List String → (enabled : Bool) → (user : String) → Command
  replace : String → List String → (user : String) → Command

abbrev pub specify : Command → Overrides → Overrides
specify (toggle t c enabled user) o = set_override t c enabled o
specify (bulk_upsert t codes enabled user) o = set_overrides t codes enabled o
specify (replace t codes user) o = replace_overrides t codes o

abbrev pub specify_all : List Command → Overrides → Overrides
specify_all [] o = o
specify_all (c ∷ cs) o = specify_all cs (specify c o)

module _ (env : Env) where
  abbrev pub execute : Command → Action (World env) (Unit {0})
  execute (toggle t c enabled user) = do toggle_feature env t c enabled user; pure tt
  execute (bulk_upsert t codes enabled user) = bulk_upsert_features env t codes enabled user
  execute (replace t codes user) = replace_tenant_features env t codes user

  -- The table holds a row for each override, and no other row.
  pub record Represents (o : Overrides) (s : env.features.Store) : Type 0 where
    pub sound :
        (f : TenantFeature)
        → env.features.Has s f
        → o f.tenant_id f.feature_code ≡ some f.is_enabled
    pub complete :
        (t c : String) (b : Bool)
        → o t c ≡ some b
        → (f : TenantFeature) × env.features.Has s f
          × (is_override t c f ≡ true)
          × (f.is_enabled ≡ b)
