-- ===== src/Identity/Memberships.antt =====
-- services/identity-service/src/modules/memberships/memberships.service.ts
pub mod Invitations
pub mod Removal
use saas_chassis.Prelude.{
  ℕ, String, Bool, true, false, ◌&&◌, Option, none, some, List, [], ◌∷◌, Action, pure, throw, ◌>>=◌,
  ◌>>◌, ◌==◌, required, not_found, conflict, template, or_else, if◌then◌else◌,
}
use saas_chassis.Identity.Entities.{Membership, MembershipStatus, user_added}
use saas_chassis.Identity.State.{
  Env, World, find_one_membership, find_memberships, save_membership, publish,
}
use saas_chassis.Identity.Roles

-- A status text outside the enumeration is refused by the column: a failure of `save`.
pub record CreateMembershipDto : Type 0 where
  pub user_id : String
  pub tenant_id : String
  pub role_id : String
  pub status : Option MembershipStatus

abbrev pub is_active : Membership → Bool
is_active m = elim m.status [ MembershipStatus.active ↦ true | _ ↦ false ]

abbrev pub is_removed : Membership → Bool
is_removed m = elim m.status [ MembershipStatus.removed ↦ true | _ ↦ false ]

-- `where: { userId, tenantId }`
abbrev pub of_user_and_tenant : String → String → Membership → Bool
of_user_and_tenant user_id tenant_id m = m.user_id == user_id && m.tenant_id == tenant_id

abbrev pub restored : (now : ℕ) → CreateMembershipDto → Membership → Membership
restored now dto m = record m {
  role_id = dto.role_id;
  status = or_else dto.status MembershipStatus.active;
  joined_at = some now;
}

abbrev pub new_membership : (now : ℕ) → CreateMembershipDto → Membership
new_membership now dto = record {
  user_id = dto.user_id;
  tenant_id = dto.tenant_id;
  role_id = dto.role_id;
  status = or_else dto.status MembershipStatus.active;
  invited_by = none;
  invited_at = none;
  joined_at = some now;
}

module _ (env : Env) where
  abbrev pub find_by_user_id : String → Action (World env) (List Membership)
  find_by_user_id user_id = find_memberships env (λ m. m.user_id == user_id)

  abbrev pub find_by_tenant_id : String → Action (World env) (List Membership)
  find_by_tenant_id tenant_id = find_memberships env (λ m. m.tenant_id == tenant_id && is_active m)

  abbrev pub find_by_user_and_tenant :
      (user_id tenant_id : String) → Action (World env) (Option Membership)
  find_by_user_and_tenant user_id tenant_id =
      find_one_membership env (of_user_and_tenant user_id tenant_id)

  -- The row to save: a removed one is restored, any other is a conflict.
  save_over : (now : ℕ) → CreateMembershipDto → Option Membership → Action (World env) Membership
  save_over now dto none = do
    save_membership env (new_membership now dto)
    pure (new_membership now dto)
  save_over now dto (some existing) =
      if is_removed existing
      then (do save_membership env (restored now dto existing); pure (restored now dto existing))
      else throw (
          conflict (
            template (
              "User " ∷ dto.user_id ∷ " already has an active membership in tenant " ∷ dto.tenant_id
              ∷ [])))

  unfoldable pub create : (now : ℕ) → CreateMembershipDto → Action (World env) Membership
  unfolding save_over
  create now dto = do
    existing ← find_by_user_and_tenant dto.user_id dto.tenant_id
    role ← Roles.find_by_id env dto.role_id
    saved ← save_over now dto existing
    publish env "chassis.tenants" "tenant.user-added"
        (user_added dto.tenant_id dto.user_id role.name)
    pure saved

  unfoldable pub remove : (user_id tenant_id : String) → Action (World env) (Unit {0})
  remove user_id tenant_id = do
    found ← find_by_user_and_tenant user_id tenant_id
    membership ← required found (
        not_found
          (template ("No membership found for user " ∷ user_id ∷ " in tenant " ∷ tenant_id ∷ [])))
    save_membership env (record membership { status = MembershipStatus.removed })
