-- ===== src/Identity/Auth.antt =====
-- services/identity-service/src/modules/auth: the tokens of auth.service.ts and the JWT strategy. The
-- check of a password is in the child Credentials, the tokens of impersonations in Delegation. `now` is the
-- time that `Date.now()` reads.
pub mod Credentials
pub mod Delegation
pub mod Interleaving
pub mod Passwords
pub mod Lockout
pub mod Sessions
pub mod Switching
pub mod Tokens
use saas_chassis.Prelude.{
  ℕ, zero, suc, ◌+◌, ◌-◌, ◌*◌, ◌/◌, String, Bool, true, false, not, ◌&&◌, ◌||◌, Option, none, some,
  List, [], ◌∷◌, map, Result, ok, err, Action, pure, throw, ◌>>=◌, ◌>>◌, ◌==◌, required,
  unauthorized, forbidden, error, template, or_else, is_some, truthy, when, unless, if◌then◌else◌,
  leb, ltb, nat_eq, find_first, codes, parse_int,
}
use saas_chassis.Identity.Entities.{
  User, Role, Membership, RefreshToken, is_revoked, is_valid, JwtPayload, user_login,
}
use saas_chassis.Identity.State.{
  Env, World, find_one_user, role_of, find_one_token, user_of, save_token, redis_get, redis_setex,
  redis_del, redis_incr, redis_expire, publish,
}
use saas_chassis.Identity.Users
use saas_chassis.Identity.Users.{CreateUserDto}
use saas_chassis.Identity.Roles.{permission_string}
use saas_chassis.Identity.Memberships.{is_active, find_by_user_id, find_by_user_and_tenant}
use saas_chassis.Identity.Duration.{parse_duration_to_seconds}

pub record TokenResponse : Type 0 where
  pub access_token : String
  pub refresh_token : String
  pub expires_in : ℕ

pub record AccessTokenResponse : Type 0 where
  pub access_token : String
  pub expires_in : ℕ

abbrev pub revoked_key : String → String
revoked_key hash = template ("revoked:" ∷ hash ∷ [])

-- `membership?.role` with its permissions: the roles and permissions of a payload.
abbrev pub roles_of : Option Role → List String
roles_of none = []
roles_of (some r) = r.name ∷ []

abbrev pub permissions_of : Option Role → List String
permissions_of none = []
permissions_of (some r) = map permission_string r.permissions

abbrev pub tenant_of : Option Membership → Option String
tenant_of none = none
tenant_of (some m) = some m.tenant_id

-- `Math.max(0, Math.floor((expiresAt - now) / 1000))`: the difference on ℕ stops at 0.
abbrev pub remaining_ttl : (now expires_at : ℕ) → ℕ
remaining_ttl now expires_at = (expires_at - now) / 1000

-- The body of `buildJwtPayload` once the role is loaded.
abbrev pub payload_for : User → Option Membership → Option Role → JwtPayload
payload_for user membership role = record {
  sub = user.id;
  email = user.email;
  display_name = user.display_name;
  is_platform_admin = user.is_platform_admin;
  tenant_id = tenant_of membership;
  tenant_slug = none;
  roles = roles_of role;
  permissions = permissions_of role;
  is_impersonating = false;
  real_user_id = none;
}

module _ (env : Env) where
  -- `membership?.role`: the relation, where there is a membership.
  abbrev pub role_of_membership : Option Membership → Action (World env) (Option Role)
  role_of_membership none = pure none
  role_of_membership (some m) = role_of env m

  unfoldable pub build_jwt_payload : User → Option Membership → Action (World env) JwtPayload
  build_jwt_payload user membership = do
    role ← role_of_membership membership
    pure (payload_for user membership role)

  abbrev pub sign_access_token : JwtPayload → String
  sign_access_token payload = env.sign payload (or_else env.jwt_expiry "15m")

  abbrev pub get_expires_in_seconds : ℕ
  get_expires_in_seconds = parse_duration_to_seconds (codes (or_else env.jwt_expiry "15m"))

  abbrev pub parse_expiry : (now : ℕ) → String → ℕ
  parse_expiry now expiry = now + parse_duration_to_seconds (codes expiry) * 1000

  abbrev pub access_response : JwtPayload → AccessTokenResponse
  access_response payload = record {
    access_token = sign_access_token payload;
    expires_in = get_expires_in_seconds;
  }

  -- `random` is the text of `randomBytes(64).toString('hex')`.
  issue_tokens :
      (now : ℕ)
      → (random : String) → JwtPayload
      → (user_id : String) → (ip_address device_info : Option String)
      → Action (World env) TokenResponse
  issue_tokens now random payload user_id ip_address device_info = do
    save_token env (record {
      user_id = user_id;
      token_hash = env.sha256 random;
      device_info = device_info;
      ip_address = ip_address;
      expires_at = parse_expiry now (or_else env.refresh_expiry "7d");
      revoked_at = none;
    })
    pure (record {
      access_token = sign_access_token payload;
      refresh_token = random;
      expires_in = get_expires_in_seconds;
    })

  -- The payload for the first active membership.
  unfoldable pub primary_payload : User → Action (World env) JwtPayload
  unfolding build_jwt_payload
  primary_payload user = do
    memberships ← find_by_user_id env user.id
    build_jwt_payload user (find_first is_active memberships)

  unfoldable pub login :
      (now : ℕ)
      → (random : String) → User
      → (ip_address device_info : Option String) → Action (World env) TokenResponse
  unfolding primary_payload issue_tokens
  login now random user ip_address device_info = do
    payload ← primary_payload user
    response ← issue_tokens now random payload user.id ip_address device_info
    Users.update_last_login env now user.id
    publish env "chassis.audit" "user.login" (user_login user.id user.email ip_address)
    pure response

  unfoldable pub register :
      (now : ℕ) → (random : String) → CreateUserDto → Action (World env) TokenResponse
  register now random dto = do
    user ← Users.create env (record dto { is_platform_admin = none; email_verified = none })
    login now random user none none

  refresh_for : Option User → Action (World env) AccessTokenResponse
  unfolding primary_payload
  refresh_for none = throw (error "Cannot read properties of null (reading 'isActive')")
  refresh_for (some user) =
      if user.is_active
      then (do payload ← primary_payload user; pure (access_response payload))
      else throw (unauthorized "User account is inactive")

  refresh_stored : (now : ℕ) → Option RefreshToken → Action (World env) AccessTokenResponse
  unfolding refresh_for
  refresh_stored now none = throw (unauthorized "Invalid or expired refresh token")
  refresh_stored now (some stored) =
      if is_valid now stored
      then user_of env stored >>= refresh_for
      else throw (unauthorized "Invalid or expired refresh token")

  abbrev pub has_hash : String → RefreshToken → Bool
  has_hash hash t = t.token_hash == hash

  unfoldable pub refresh_access_token :
      (now : ℕ) → (refresh_token : String) → Action (World env) AccessTokenResponse
  unfolding refresh_stored
  refresh_access_token now refresh_token = do
    let hash = env.sha256 refresh_token
    blacklisted ← redis_get env (revoked_key hash)
    if truthy blacklisted
        then throw (unauthorized "Refresh token has been revoked")
        else (do stored ← find_one_token env (has_hash hash); refresh_stored now stored)

  revoke_stored : (now : ℕ) → (hash : String) → Option RefreshToken → Action (World env) (Unit {0})
  revoke_stored now hash none = pure tt
  revoke_stored now hash (some stored) = if is_revoked stored then pure tt else (do
    save_token env (record stored { revoked_at = some now })
    when (ltb 0 (remaining_ttl now stored.expires_at))
        (redis_setex env (revoked_key hash) (remaining_ttl now stored.expires_at) "1"))

  unfoldable pub logout : (now : ℕ) → (refresh_token : String) → Action (World env) (Unit {0})
  unfolding revoke_stored
  logout now refresh_token = do
    stored ← find_one_token env (has_hash (env.sha256 refresh_token))
    revoke_stored now (env.sha256 refresh_token) stored

  unfoldable pub switch_tenant :
      (user_id tenant_id : String) → Action (World env) AccessTokenResponse
  unfolding build_jwt_payload
  switch_tenant user_id tenant_id = do
    user ← Users.find_by_id env user_id
    membership ← find_by_user_and_tenant env user_id tenant_id
    unless (is_some membership || user.is_platform_admin)
        (forbidden (template ("User does not have access to tenant " ∷ tenant_id ∷ [])))
    payload ← build_jwt_payload user membership
    pure (access_response payload)

  abbrev pub get_me : String → Action (World env) User
  get_me user_id = Users.find_by_id env user_id

  -- `JwtStrategy.validate`
  unfoldable pub jwt_validate : JwtPayload → Action (World env) JwtPayload
  jwt_validate payload = do
    user ← find_one_user env (λ u. u.id == payload.sub && u.is_active)
    required user (unauthorized "User not found or has been deactivated")
    pure payload
