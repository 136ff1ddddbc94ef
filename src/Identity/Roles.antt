-- ===== src/Identity/Roles.antt =====
-- services/identity-service/src/modules/roles/roles.service.ts
use saas_chassis.Prelude.{
  String, Bool, true, ◌||◌, ◌&&◌, Option, List, [], ◌∷◌, map, Action, pure, ◌>>=◌, ◌==◌, required,
  not_found, template, same_text, truthy, is_some, not,
}
use saas_chassis.Identity.Entities.{Role, Permission}
use saas_chassis.Identity.State.{Env, World, find_one_role, find_roles, find_permissions}

-- `${p.resource}:${p.action}`
abbrev pub permission_string : Permission → String
permission_string p = template (p.resource ∷ ":" ∷ p.action ∷ [])

-- `where: [{ tenantId }, { tenantId: IsNull() }]`, or all roles without a tenant.
abbrev pub visible_to : Option String → Role → Bool
visible_to tenant r =
    not (truthy tenant) || same_text r.tenant_id tenant || not (is_some r.tenant_id)

module _ (env : Env) where
  unfoldable pub find_all : (tenant_id : Option String) → Action (World env) (List Role)
  find_all tenant_id = find_roles env (visible_to tenant_id)

  unfoldable pub find_by_id : String → Action (World env) Role
  find_by_id id = do
    role ← find_one_role env (λ r. r.id == id)
    required role (not_found (template ("Role with ID " ∷ id ∷ " not found" ∷ [])))

  unfoldable pub find_by_name :
      (name : String) → (tenant_id : Option String) → Action (World env) (Option Role)
  find_by_name name tenant_id =
      find_one_role env (λ r. r.name == name && same_text r.tenant_id tenant_id)

  unfoldable pub get_permissions_for_role : String → Action (World env) (List String)
  unfolding find_by_id
  get_permissions_for_role id = do
    role ← find_by_id id
    pure (map permission_string role.permissions)

  pub find_all_permissions : Action (World env) (List Permission)
  find_all_permissions = find_permissions env (λ _. true)
