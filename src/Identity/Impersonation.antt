-- ===== src/Identity/Impersonation.antt =====
-- services/identity-service/src/modules/impersonation/impersonation.service.ts. `now` is the time
-- that `Date.now()` reads.
pub mod Authority
pub mod Ending
use saas_chassis.Prelude.{
  ℕ, ◌+◌, ◌*◌, String, Bool, true, false, not, ◌&&◌, ◌||◌, Option, none, some, List, [], ◌∷◌,
  Result, ok, err, Action, pure, throw, ◌>>=◌, ◌>>◌, ◌==◌, required, unauthorized, forbidden,
  unless, truthy, is_some, ltb, or_else, if◌then◌else◌,
}
use saas_chassis.Identity.Entities.{User, ImpersonationSession, JwtPayload, user_impersonate}
use saas_chassis.Identity.State.{
  Env, World, find_last_session, find_sessions, new_session_id, save_session, publish,
}
use saas_chassis.Identity.Users
use saas_chassis.Identity.Auth.{AccessTokenResponse}
use saas_chassis.Identity.Auth.Delegation.{
  issue_impersonation_token, revoke_impersonation_token, reissue_admin_token,
}

pub record ImpersonateDto : Type 0 where
  pub target_user_id : String
  pub target_tenant_id : String
  pub reason : String

pub record Started : Type 0 where
  pub access_token : String
  pub session_id : String

-- `where: { targetUserId, adminUserId, endedAt: IsNull() }`
abbrev pub is_open : (target admin : String) → ImpersonationSession → Bool
is_open target admin s =
    s.target_user_id == target && s.admin_user_id == admin && not (is_some s.ended_at)

-- `s.ended_at IS NULL AND s.expires_at > now`, and of the admin if one is given.
abbrev pub is_active_for : (now : ℕ) → Option String → ImpersonationSession → Bool
is_active_for now admin s =
    not (is_some s.ended_at)
    && ltb now s.expires_at
    && (not (truthy admin) || s.admin_user_id == or_else admin "")

abbrev pub pending :
    (now : ℕ) → (id : String) → (admin target : User) → ImpersonateDto → ImpersonationSession
pending now id admin target dto = record {
  id = id;
  admin_user_id = admin.id;
  target_user_id = target.id;
  target_tenant_id = dto.target_tenant_id;
  reason = dto.reason;
  token_hash = "pending";
  expires_at = now + 30 * 60 * 1000;
  ended_at = none;
}

module _ (env : Env) where
  -- `start` once the administrator and the target are loaded.
  start_session : (now : ℕ) → (admin target : User) → ImpersonateDto → Action (World env) Started
  start_session now admin target dto = do
    id ← new_session_id env
    save_session env (pending now id admin target dto)
    token ← issue_impersonation_token env admin target dto.target_tenant_id
    save_session env (record (pending now id admin target dto) { token_hash = env.sha256 token })
    publish env "chassis.audit" "user.impersonate"
        (user_impersonate admin.id target.id dto.target_tenant_id dto.reason id)
    pure (record { access_token = token; session_id = id })

  -- The guards on the target.
  check_target : (now : ℕ) → (admin target : User) → ImpersonateDto → Action (World env) Started
  unfolding start_session
  check_target now admin target dto = do
    unless target.is_active (forbidden "Cannot impersonate an inactive user")
    unless (not target.is_platform_admin)
        (forbidden "Cannot impersonate another platform administrator")
    start_session now admin target dto

  unfoldable pub start_impersonation :
      (now : ℕ) → JwtPayload → ImpersonateDto → Action (World env) Started
  unfolding check_target
  start_impersonation now admin_user dto = do
    unless admin_user.is_platform_admin
        (forbidden "Only platform administrators can impersonate users")
    admin ← Users.find_by_id env admin_user.sub
    target ← Users.find_by_id env dto.target_user_id
    check_target now admin target dto

  end_session : (now : ℕ) → Option ImpersonationSession → Action (World env) (Unit {0})
  end_session now none = pure tt
  end_session now (some s) = do
    save_session env (record s { ended_at = some now })
    revoke_impersonation_token env now s.token_hash s.expires_at

  unfoldable pub end_impersonation : (now : ℕ) → JwtPayload → Action (World env) AccessTokenResponse
  unfolding end_session
  end_impersonation now user = do
    unless user.is_impersonating (forbidden "Current session is not an impersonation session")
    unless (truthy user.real_user_id) (unauthorized "Missing realUserId in impersonation token")
    session ← find_last_session env (is_open user.sub (or_else user.real_user_id ""))
    end_session now session
    reissue_admin_token env (or_else user.real_user_id "")

  unfoldable pub find_active_sessions :
      (now : ℕ) → (admin_user_id : Option String) → Action (World env) (List ImpersonationSession)
  find_active_sessions now admin_user_id = find_sessions env (is_active_for now admin_user_id)
