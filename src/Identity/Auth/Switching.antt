-- ===== src/Identity/Auth/Switching.antt =====
-- services/identity-service/src/modules/auth/auth.service.ts: who may switch to a tenant.
use saas_chassis.Prelude.{
  ◌≡◌, refl, ap, inl, inr, String, Bool, true, false, Option, none, some, [], ◌∷◌, map, ok, arith,
  eq_iff, template, Result-cases, ◌⊎◌, or_else,
}
use saas_chassis.External.Repository.{IsTable}
use saas_chassis.Identity.Entities.{User, Membership, Role, Permission, JwtPayload}
use saas_chassis.Identity.State.{Env, World}
use saas_chassis.Identity.Users
use saas_chassis.Identity.Users.{has_id}
use saas_chassis.Identity.Memberships.{of_user_and_tenant}
use saas_chassis.Identity.Auth.{AccessTokenResponse, payload_for, switch_tenant}

-- What a payload says of a role, if there is one.
abbrev pub Grants : Option Role → JwtPayload → Type 0
Grants none p = (p.roles ≡ []) × (p.permissions ≡ [])
Grants (some r) p =
    (p.roles ≡ r.name ∷ [])
    × (p.permissions
        ≡ map (λ (q : Permission). template (q.resource ∷ ":" ∷ q.action ∷ [])) r.permissions)

payload_for-Grants :
    (user : User) (m : Option Membership) (role : Option Role)
    → Grants role (payload_for user m role)
payload_for-Grants user m none = (refl, refl)
payload_for-Grants user m (some r) = (refl, refl)

key_of :
    (user_id tenant_id : String) (m : Membership)
    → of_user_and_tenant user_id tenant_id m ≡ true
    → (m.user_id ≡ user_id) × (m.tenant_id ≡ tenant_id)
key_of user_id tenant_id m h =
    ((eq_iff m.user_id user_id).0 (ground arith), (eq_iff m.tenant_id tenant_id).0 (ground arith))

module _ (env : Env) (same : Membership → Membership → Bool)
    (t : IsTable same env.memberships) where
  -- A switch of tenant that returns writes nothing, and its token is signed, for the configured time
  -- or 15m, with a payload of the stored user, which is marked as no impersonation and is a platform
  -- administrator's exactly where the user is one. Either there is a stored membership of that user
  -- in that tenant, whose tenant the payload has, with the name and the permissions, written as
  -- resource:action, of the role that its key joins, and none where it joins none; or the user is a
  -- platform administrator, and the payload has no tenant, no role and no permission.
  pub switch_tenant-ok :
      (user_id tenant_id : String) (w w' : World env) (r : AccessTokenResponse)
      → switch_tenant env user_id tenant_id w ≡ (ok r, w')
      → (w' ≡ w)
        × ((user : User) × (env.users.find_one (has_id user_id) w.users ≡ ok (some user))
            × ((payload : JwtPayload) × (r.access_token
                  ≡ env.sign payload (or_else env.jwt_expiry "15m"))
                × (payload.sub ≡ user.id)
                × (payload.email ≡ user.email)
                × (payload.is_platform_admin ≡ user.is_platform_admin)
                × (payload.is_impersonating ≡ false)
                × (payload.real_user_id ≡ none)
                × (((m : Membership) × env.memberships.Has w.memberships m
                      × (m.user_id ≡ user_id)
                      × (m.tenant_id ≡ tenant_id)
                      × (payload.tenant_id ≡ some tenant_id)
                      × Grants (env.join_role m.role_id w.roles) payload)
                    ⊎ ((user.is_platform_admin ≡ true)
                        × (payload.tenant_id ≡ none)
                        × Grants none payload))))
  unfolding switch_tenant Users.find_by_id
  switch_tenant-ok user_id tenant_id w w' r h =
      elim (Result-cases (env.users.find_one (has_id user_id) w.users)) [
        | inr (e, q) ↦ ground arith
        | inl (none, q) ↦ ground arith
        | inl (some user, q) ↦
            elim (Result-cases
              (env.memberships.find_one (of_user_and_tenant user_id tenant_id) w.memberships)) [
                | inr (e, f) ↦ ground arith
                | inl (none, f) ↦ (
                  ground arith,
                  (
                    user,
                    q,
                    (
                      payload_for user none none,
                      ground arith,
                      refl,
                      refl,
                      refl,
                      refl,
                      refl,
                      inr (ground arith, refl, (refl, refl)),
                    ),
                  ),
                )
                | inl (some m, f) ↦
                    let (has, key) =
                      t.find_one_some (of_user_and_tenant user_id tenant_id) w.memberships m f in
                    let (of_user, of_tenant) = key_of user_id tenant_id m key in
                    let role = env.join_role m.role_id w.roles in
                    let grants = payload_for-Grants user (some m) role in
                    let own = ap some of_tenant in
                    (
                      ground arith,
                      (
                        user,
                        q,
                        (
                          payload_for user (some m) role,
                          ground arith,
                          refl,
                          refl,
                          refl,
                          refl,
                          refl,
                          inl (m, has, of_user, of_tenant, own, grants),
                        ),
                      ),
                    )
              ]
      ]
