-- ===== src/Identity/Impersonation/Authority.antt =====
-- services/identity-service/src/modules/impersonation/impersonation.service.ts: who may impersonate
-- whom, and with what token.
use saas_chassis.Prelude.{
  ℕ, ◌≡◌, refl, ap, inl, inr, String, true, false, Option, none, some, ok, arith, ◌==◌,
  Result-cases, Option-cases, or_else,
}
use saas_chassis.Identity.Entities.{User, JwtPayload, Role}
use saas_chassis.Identity.State.{Env, World}
use saas_chassis.Identity.Memberships.{of_user_and_tenant}
use saas_chassis.Identity.Users.{find_by_id, has_id}
use saas_chassis.Identity.Auth.Delegation.{
  issue_impersonation_token, impersonation_payload, or_find,
}
use saas_chassis.Identity.Impersonation.{
  Started, ImpersonateDto, start_session, check_target, start_impersonation, pending,
}

-- A payload for an administrator who acts as a user in a tenant.
pub record IsImpersonation (admin target : User) (tenant_id : String) (p : JwtPayload)
    : Type 0 where
  pub subject : p.sub ≡ target.id
  pub email : p.email ≡ target.email
  pub tenant : p.tenant_id ≡ some tenant_id
  pub plain : p.is_platform_admin ≡ false
  pub impersonating : p.is_impersonating ≡ true
  pub real_user : p.real_user_id ≡ some admin.id

module _ (env : Env) where
  impersonation_payload-IsImpersonation :
      (admin target : User) (tenant_id : String) (role : Option Role)
      → IsImpersonation admin target tenant_id
          (impersonation_payload env admin target tenant_id role)
  impersonation_payload-IsImpersonation admin target tenant_id role = record {
    subject = refl;
    email = refl;
    tenant = refl;
    plain = refl;
    impersonating = refl;
    real_user = refl;
  }

  -- What a token is that was signed for an impersonation.
  abbrev Signed : (admin target : User) → (tenant_id token : String) → Type 0
  Signed admin target tenant_id token =
      (payload : JwtPayload) × IsImpersonation admin target tenant_id payload
      × (token ≡ env.sign payload (or_else env.impersonation_expiry "30m"))

  issue_impersonation_token-eq-ok :
      (admin target : User) (tenant_id token : String) (w w' : World env)
      → issue_impersonation_token env admin target tenant_id w ≡ (ok token, w')
      → (w' ≡ w) × Signed admin target tenant_id token
  unfolding issue_impersonation_token
  issue_impersonation_token-eq-ok admin target tenant_id token w w' h =
      let signed : (role : Option Role)
          → token
            ≡ env.sign (impersonation_payload env admin target tenant_id role)
                (or_else env.impersonation_expiry "30m")
          → Signed admin target tenant_id token =
        λ role e. (
          impersonation_payload env admin target tenant_id role,
          impersonation_payload-IsImpersonation admin target tenant_id role,
          e,
        ) in
      elim (Result-cases
        (env.memberships.find_one (of_user_and_tenant target.id tenant_id) w.memberships)) [
          | inr (e, q) ↦ ground arith
          | inl (m, q) ↦
              elim (Result-cases
                (env.memberships.find (λ m. m.user_id == target.id) w.memberships)) [
                  | inr (e, f) ↦ ground arith
                  | inl (ms, f) ↦ elim (Option-cases (or_find env tenant_id ms m)) [
                    | inl n ↦ (ground arith, signed none (ground arith))
                    | inr (x, n) ↦
                        (ground arith, signed (env.join_role x.role_id w.roles) (ground arith))
                  ]
                ]
        ]

  start_session-token :
      (now : ℕ) (admin target : User) (dto : ImpersonateDto) (w w' : World env) (r : Started)
      → start_session env now admin target dto w ≡ (ok r, w')
      → Signed admin target dto.target_tenant_id r.access_token
  unfolding start_session
  start_session-token now admin target dto w w' r h =
      let new = pending now (env.sessions.new_id w.sessions) admin target dto in
      let w1 : World env = record w { sessions = (env.sessions.save new w.sessions).1 } in
      let issue = issue_impersonation_token env admin target dto.target_tenant_id w1 in
      elim (Result-cases issue.0) [
        | inr (e, i) ↦ ground arith
        | inl (token, i) ↦
            let (_, (payload, fits, signed)) =
              issue_impersonation_token-eq-ok admin target dto.target_tenant_id token w1 issue.1
                (ap (λ o. (o, issue.1)) i) in
            (payload, fits, ground arith)
      ]

  check_target-ok :
      (now : ℕ) (admin target : User) (dto : ImpersonateDto) (w w' : World env) (r : Started)
      → check_target env now admin target dto w ≡ (ok r, w')
      → (target.is_active ≡ true)
        × (target.is_platform_admin ≡ false)
        × Signed admin target dto.target_tenant_id r.access_token
  unfolding check_target
  check_target-ok now admin target dto w w' r h =
      let signed = start_session-token now admin target dto w w' r (ground arith) in
      (ground arith, ground arith, signed)

  -- An impersonation that returns was asked for by a platform administrator, of an active user who
  -- is none. Its token is signed, for the configured time or 30m, with a payload whose subject and
  -- email are those of the target, whose tenant is the one asked for, which is no platform
  -- administrator's, and which is marked as an impersonation by the administrator.
  pub start_impersonation-ok :
      (now : ℕ) (admin_user : JwtPayload) (dto : ImpersonateDto) (w w' : World env) (r : Started)
      → start_impersonation env now admin_user dto w ≡ (ok r, w')
      → (admin_user.is_platform_admin ≡ true)
        × ((admin : User) × (target : User) × (payload : JwtPayload) × (env.users.find_one
                (has_id admin_user.sub)
                w.users
              ≡ ok (some admin))
            × (env.users.find_one (has_id dto.target_user_id) w.users ≡ ok (some target))
            × (target.is_active ≡ true)
            × (target.is_platform_admin ≡ false)
            × IsImpersonation admin target dto.target_tenant_id payload
            × (r.access_token ≡ env.sign payload (or_else env.impersonation_expiry "30m")))
  unfolding start_impersonation find_by_id
  start_impersonation-ok now admin_user dto w w' r h =
      elim (Result-cases (env.users.find_one (has_id admin_user.sub) w.users)) [
        | inr (e, q) ↦ ground arith
        | inl (none, q) ↦ ground arith
        | inl (some admin, q) ↦
            elim (Result-cases (env.users.find_one (has_id dto.target_user_id) w.users)) [
              | inr (e, f) ↦ ground arith
              | inl (none, f) ↦ ground arith
              | inl (some target, f) ↦
                  let allowed : admin_user.is_platform_admin ≡ true = ground arith in
                  let (active, plain, (payload, fits, signed)) =
                    check_target-ok now admin target dto w w' r (ground arith) in
                  (allowed, (admin, target, payload, q, f, active, plain, fits, signed))
            ]
      ]
