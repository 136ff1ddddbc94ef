-- ===== src/TenantManager/Plans.antt =====
-- services/tenant-manager/src/modules/plans/plans.service.ts
use saas_chassis.Prelude.{
  String, true, Option, none, some, List, [], ◌∷◌, Action, pure, ◌>>=◌, ◌==◌, required, not_found,
  template,
}
use saas_chassis.TenantManager.Entities.{Plan}
use saas_chassis.TenantManager.State.{Env, World, find_one_plan, find_plans}

-- The plan that `findByCode` returns where no plan is seeded.
abbrev pub default_plan : Plan
default_plan = record {
  id = "default";
  code = "free";
  name = "Free";
  description = none;
  price_monthly = some 0;
  price_yearly = none;
  stripe_price_id_monthly = none;
  stripe_price_id_yearly = none;
  max_users = some 5;
  max_units = some 1;
  included_features = "module.financial_core" ∷ "module.universal_ledger" ∷ [];
  is_active = true;
  sort_order = 0;
}

module _ (env : Env) where
  -- The order of the plans is left to the query.
  pub find_all : Action (World env) (List Plan)
  find_all = find_plans env (λ p. p.is_active)

  pub find_by_id : String → Action (World env) Plan
  find_by_id id = do
    plan ← find_one_plan env (λ p. p.id == id)
    required plan (not_found (template ("Plan with ID " ∷ id ∷ " not found" ∷ [])))

  or_default : Option Plan → Action (World env) Plan
  or_default none = pure default_plan
  or_default (some free) = pure free

  or_free : Option Plan → Action (World env) Plan
  unfolding or_default
  or_free none = do free ← find_one_plan env (λ p. p.code == "free"); or_default free
  or_free (some plan) = pure plan

  unfoldable pub find_by_code : String → Action (World env) Plan
  unfolding or_free
  find_by_code code = do plan ← find_one_plan env (λ p. p.code == code); or_free plan
