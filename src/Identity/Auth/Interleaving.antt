-- ===== src/Identity/Auth/Interleaving.antt =====
-- services/identity-service/src/modules/auth/auth.service.ts: `validateCredentials`, one `await` at
-- a time, and its calls for one email in any interleaving.
pub mod Counting
pub mod Solo
use saas_chassis.Prelude.{
  ℕ, zero, suc, ◌+◌, ◌≤◌, ◌≡◌, ◌≢◌, refl, ap, ◌∙◌, inl, inr, String, Bool, true, false, ◌&&◌,
  Option, none, some, List, [], ◌∷◌, map, Result, ok, err, Exception, unauthorized, arith,
  Result-cases, Bool-cases, or_else, nat_eq, if◌then◌else◌,
}
use saas_chassis.External.Redis.{IsRedis}
use saas_chassis.Identity.Entities.{User}
use saas_chassis.Identity.State.{Env, World, redis_get, redis_del, redis_incr, redis_expire}
use saas_chassis.Identity.Users
use saas_chassis.Identity.Users.{has_email}
use saas_chassis.Identity.Auth.Credentials.{
  attempts_key, max_attempts, is_blocked, increment_login_attempts, validate_credentials,
}
use saas_chassis.Identity.Auth.Lockout.{Count, validate_credentials-blocked}

-- Where a call waits, with what it has read: before GET, before the query of the user, before INCR,
-- before DEL, or before the test of the counter's reply. A call ends with the exception of the
-- lock, or with a result.
pub data Phase : Type 0 where
  arrived : (password : String) → Phase
  admitted : (password : String) → Phase
  rejected : Phase
  accepted : User → Phase
  counted : (current : ℕ) → Phase
  refused : Phase
  ended : Result (Option User) → Phase

module _ (env : Env) (email : String) where
  after_get : (password : String) → Result (Option String) → Phase
  after_get password (err e) = ended (err e)
  after_get password (ok attempts) = if is_blocked env attempts then refused else admitted password

  after_query : (password : String) → Result (Option User) → Phase
  after_query password (err e) = ended (err e)
  after_query password (ok none) = rejected
  after_query password (ok (some user)) =
      if user.is_active && env.compare_password password user.password_hash
      then accepted user
      else rejected

  after_incr : Result ℕ → Phase
  after_incr (err e) = ended (err e)
  after_incr (ok current) = counted current

  after_write : Option User → Result (Unit {0}) → Phase
  after_write answer (err e) = ended (err e)
  after_write answer (ok _) = ended (ok answer)

  -- One `await` of a call, with the code up to the next.
  unfoldable pub advance : Phase → World env → Phase × World env
  unfolding after_get after_query after_incr after_write
  advance (arrived password) w =
      let (r, v) = redis_get env (attempts_key env email) w in (after_get password r, v)
  advance (admitted password) w =
      let (r, v) = Users.find_by_email env email w in (after_query password r, v)
  advance rejected w = let (r, v) = redis_incr env (attempts_key env email) w in (after_incr r, v)
  advance (accepted user) w =
      let (r, v) = redis_del env (attempts_key env email ∷ []) w in (after_write (some user) r, v)
  advance (counted current) w =
      if nat_eq current 1
      then (let (r, v) =
            redis_expire env (attempts_key env email) (or_else env.login_block_duration_seconds 900)
              w in
          (after_write none r, v))
      else (ended (ok none), w)
  advance refused w = (refused, w)
  advance (ended r) w = (ended r, w)

  -- The call with the number `i` goes on; a number of no call does nothing.
  pub turn : ℕ → List Phase → World env → List Phase × World env
  turn i [] w = ([], w)
  turn zero (p ∷ ps) w = let (q, v) = advance p w in (q ∷ ps, v)
  turn (suc i) (p ∷ ps) w = let (qs, v) = turn i ps w in (p ∷ qs, v)

  -- The calls in the order of the schedule.
  unfoldable pub interleave : List ℕ → List Phase → World env → List Phase × World env
  unfolding turn
  interleave [] ps w = (ps, w)
  interleave (i ∷ schedule) ps w = let (qs, v) = turn i ps w in interleave schedule qs v

-- What a call that has ended gives.
abbrev pub reply_of : Phase → Option (Result (Option User))
reply_of refused = some (
    err (
      unauthorized
        "Account temporarily locked due to too many failed login attempts. Try again in 15 minutes."))
reply_of (ended r) = some r
reply_of _ = none
