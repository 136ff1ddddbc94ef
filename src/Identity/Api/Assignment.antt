-- ===== src/Identity/Api/Assignment.antt =====
-- services/identity-service/src/modules/roles/roles.controller.ts: what an assignment of a role that
-- is returned has done.
use saas_chassis.Prelude.{
  ℕ, ◌≡◌, refl, ◌⊎◌, inl, inr, Bool, true, Option, none, some, ok, arith, includes, any,
  Result-cases, Bool-cases, when, is_some, ◌∷◌, [],
}
use saas_chassis.External.Repository.{IsTable}
use saas_chassis.External.Repository.Lookup.{find_one-save_self}
use saas_chassis.Http.{ApiResponse}
use saas_chassis.Identity.Entities.{Membership, MembershipStatus, JwtPayload}
use saas_chassis.Identity.State.{Env, World}
use saas_chassis.Identity.Memberships.{CreateMembershipDto, of_user_and_tenant, create, remove}
use saas_chassis.Identity.Memberships.Removal.{
  same_membership, same_membership-of_user_and_tenant, create-saved,
}
use saas_chassis.Sdk.Guards.{roles_guard}
use saas_chassis.Identity.Api.{AssignRoleDto, assign_role}

abbrev assigned : AssignRoleDto → CreateMembershipDto
assigned dto = record {
  user_id = dto.user_id;
  tenant_id = dto.tenant_id;
  role_id = dto.role_id;
  status = none;
}

allowed :
    (user : JwtPayload) (b : Bool)
    → roles_guard (some ("tenant_admin" ∷ "platform_admin" ∷ [])) (some user) ≡ ok b
    → (user.is_platform_admin ≡ true)
      ⊎ (any (includes user.roles) ("tenant_admin" ∷ "platform_admin" ∷ []) ≡ true)
unfolding roles_guard
allowed user b g = elim (Bool-cases user.is_platform_admin) [
  | inl admin ↦ inl admin
  | inr plain ↦
      elim (Bool-cases (any (includes user.roles) ("tenant_admin" ∷ "platform_admin" ∷ []))) [
        | inl has ↦ inr has
        | inr lacks ↦ cc (rw (plain, lacks) at g)
      ]
]

module _ (env : Env) (t : IsTable same_membership env.memberships) where
  -- A role assignment that is returned was asked for by a platform administrator or a user with the
  -- role tenant_admin or platform_admin. It answers an active membership of the given user in the
  -- given tenant with the given role, and a query for that user and tenant that returns finds it.
  pub assign_role-ok :
      (now : ℕ) (dto : AssignRoleDto) (user : JwtPayload) (r : ApiResponse Membership)
      (w w' : World env) (found : Option Membership)
      → assign_role env now dto user w ≡ (ok r, w')
      → env.memberships.find_one (of_user_and_tenant dto.user_id dto.tenant_id) w'.memberships
        ≡ ok found
      → ((user.is_platform_admin ≡ true)
          ⊎ (any (includes user.roles) ("tenant_admin" ∷ "platform_admin" ∷ []) ≡ true))
        × ((m : Membership) × (r.payload ≡ some m)
            × (found ≡ some m)
            × (m.role_id ≡ dto.role_id)
            × (m.status ≡ MembershipStatus.active)
            × (of_user_and_tenant dto.user_id dto.tenant_id m ≡ true))
  unfolding assign_role
  assign_role-ok now dto user r w w' found h looked =
      let p = of_user_and_tenant dto.user_id dto.tenant_id in
      let roles = roles_guard (some ("tenant_admin" ∷ "platform_admin" ∷ [])) (some user) in
      elim (Result-cases roles) [
        | inr (e, g) ↦ ground arith
        | inl (b, g) ↦ elim (Result-cases (env.memberships.find_one p w.memberships)) [
          | inr (e, q) ↦ ground arith
          | inl (before, q) ↦
              let removal = when (is_some before) (remove env dto.user_id dto.tenant_id) in
              elim (Result-cases (removal w).0) [
                | inr (e, k) ↦ ground arith
                | inl (_, k) ↦
                    let created = create env now (assigned dto) (removal w).1 in
                    elim (Result-cases created.0) [
                      | inr (e, c) ↦ ground arith
                      | inl (m, c) ↦
                          let c' : created ≡ (ok m, w') = ground arith in
                          let (own, role, active, saved) =
                            create-saved env t now (assigned dto) (removal w).1 w' m refl c' in
                          (
                            allowed user b g,
                            (
                              m,
                              ground arith,
                              find_one-save_self t p m (removal w).1.memberships w'.memberships
                                  found
                                  (λ y.
                                    same_membership-of_user_and_tenant dto.user_id dto.tenant_id m y
                                      own)
                                  own saved looked,
                              role,
                              active,
                              own,
                            ),
                          )
                    ]
              ]
        ]
      ]
