-- ===== src/Identity/Validation/Bodies.antt =====
-- What bodies the endpoints of services/identity-service take: those of their own DTO classes, and
-- the one that createTenant of services/tenant-manager posts to api/v1/memberships.
use saas_chassis.Prelude.{◌≡◌, refl, String, true, false, some, List, [], ◌∷◌, arith, all}
use saas_chassis.External.Validation.{
  Validator, IsValidator, value_of, is_known, meets, no_value, all_mono,
}
use saas_chassis.TenantManager.State.{MembershipRequest}
use saas_chassis.Identity.Validation.{
  create_membership_dto, assign_role_dto, register_dto, login_dto,
}

-- `JSON.stringify({ userId, tenantId, role })` of createTenant.
abbrev pub membership_body : (v : Validator) → MembershipRequest → List (String × v.Value)
membership_body v q =
    ("userId", v.of_text q.user_id)
    ∷ ("tenantId", v.of_text q.tenant_id)
    ∷ ("role", v.of_text q.role)
    ∷ []

module _ (v : Validator) (law : IsValidator v) where
  -- The body that createTenant posts for the owner does not pass the validation of the memberships
  -- endpoint, whatever the request's ids and role.
  pub validate-membership_body :
      (q : MembershipRequest) → v.validate create_membership_dto (membership_body v q) ≡ false
  validate-membership_body q = rw (law.validate_lem create_membership_dto (membership_body v q))

  -- A body that the assignment of a role takes is one that the creation of a membership takes.
  validate-assign_role :
      (body : List (String × v.Value))
      → v.validate assign_role_dto body ≡ true
      → v.validate create_membership_dto body ≡ true
  unfolding meets
  validate-assign_role body h =
      let passed = rw (law.validate_lem assign_role_dto body) at h in
      let known : all (λ (key, _). is_known assign_role_dto key) body ≡ true = ground arith in
      let also =
        all_mono (λ (key, _). is_known assign_role_dto key)
          (λ (key, _). is_known create_membership_dto key) body (λ (key, _) k. ground arith)
          known in
      let absent = no_value (is_known assign_role_dto) "status" body refl known in
      rw (law.validate_lem create_membership_dto body, also, absent) (ground arith)

  -- The email and the password of a body that the registration takes make one that the login takes.
  validate-login :
      (body : List (String × v.Value)) (email password : v.Value)
      → value_of "email" body ≡ some email
      → value_of "password" body ≡ some password
      → v.validate register_dto body ≡ true
      → v.validate login_dto (("email", email) ∷ ("password", password) ∷ []) ≡ true
  unfolding meets
  validate-login body email password e p h =
      let passed = rw (law.validate_lem register_dto body, e, p) at h in
      rw (law.validate_lem login_dto (("email", email) ∷ ("password", password) ∷ []))
        (ground arith)
