-- ===== src/Identity/Auth/Credentials.antt =====
-- services/identity-service/src/modules/auth: `validateCredentials` of auth.service.ts and the local
-- strategy.
use saas_chassis.Prelude.{
  ℕ, String, Bool, false, ◌&&◌, Option, none, some, [], ◌∷◌, Action, pure, throw, ◌>>=◌, ◌>>◌,
  required, unauthorized, template, or_else, truthy, when, if◌then◌else◌, leb, nat_eq, parse_int,
}
use saas_chassis.Identity.Entities.{User}
use saas_chassis.Identity.State.{Env, World, redis_get, redis_del, redis_incr, redis_expire}
use saas_chassis.Identity.Users
use saas_chassis.Identity.Users.{CreateUserDto}

module _ (env : Env) where
  abbrev pub attempts_key : String → String
  attempts_key email = template ("login_attempts:" ∷ env.to_lower_case email ∷ [])

  abbrev pub max_attempts : ℕ
  max_attempts = or_else env.login_max_attempts 5

  -- `attempts && parseInt(attempts, 10) >= maxAttempts`; a comparison with NaN is false.
  abbrev reaches : Option ℕ → Bool
  reaches none = false
  reaches (some n) = leb max_attempts n

  unfoldable pub is_blocked : Option String → Bool
  is_blocked none = false
  is_blocked (some text) = truthy (some text) && reaches (parse_int text)

  unfoldable pub increment_login_attempts : String → Action (World env) (Unit {0})
  increment_login_attempts key = do
    current ← redis_incr env key
    when (nat_eq current 1) (redis_expire env key (or_else env.login_block_duration_seconds 900))

  check_password : (key password : String) → User → Action (World env) (Option User)
  unfolding increment_login_attempts
  check_password key password user =
      if env.compare_password password user.password_hash
      then (do redis_del env (key ∷ []); pure (some user))
      else (do increment_login_attempts key; pure none)

  check_user : (key password : String) → Option User → Action (World env) (Option User)
  unfolding check_password
  check_user key password none = do increment_login_attempts key; pure none
  check_user key password (some user) =
      if user.is_active
      then check_password key password user
      else (do increment_login_attempts key; pure none)

  unfoldable pub validate_credentials : (email password : String) → Action (World env) (Option User)
  unfolding is_blocked check_user
  validate_credentials email password = do
    attempts ← redis_get env (attempts_key email)
    if is_blocked attempts
        then throw (
            unauthorized
              "Account temporarily locked due to too many failed login attempts. Try again in 15 minutes.")
        else (do
          user ← Users.find_by_email env email
          check_user (attempts_key email) password user)

  -- `LocalStrategy.validate`
  unfoldable pub local_validate : (email password : String) → Action (World env) User
  unfolding validate_credentials
  local_validate email password = do
    user ← validate_credentials email password
    required user (unauthorized "Invalid email or password")
