-- ===== src/Identity/Auth/Interleaving/Solo.antt =====
-- services/identity-service/src/modules/auth/auth.service.ts: `validateCredentials` without another
-- call in between.
use saas_chassis.Prelude.{
  ℕ, zero, suc, ◌≡◌, String, pure, ◌>>◌, Option, none, some, [], ◌∷◌, arith, Result-cases,
  Option-cases, inl, inr, Bool-cases, or_else, nat_eq,
}
use saas_chassis.Identity.Entities.{User}
use saas_chassis.Identity.State.{Env, World}
use saas_chassis.Identity.Users.{has_email}
use saas_chassis.Identity.Auth.Credentials.{
  attempts_key, is_blocked, increment_login_attempts, validate_credentials,
}
use saas_chassis.Identity.Auth.Interleaving.{Phase, arrived, rejected, advance, reply_of}

module _ (env : Env) (email : String) where
  -- The phase and the state that `n` awaits of a call lead to.
  abbrev go_on : ℕ → Phase → World env → Phase × World env
  go_on zero p w = (p, w)
  go_on (suc n) p w = let (q, v) = advance env email p w in go_on n q v

  -- The answer to a rejected password, after GET and the query.
  rejected_alone :
      (w : World env)
      → (reply_of (go_on 2 rejected w).0
          ≡ some
              ((do
                increment_login_attempts env (attempts_key env email)
                pure {A = Option User} none)
                w).0)
        × ((go_on 2 rejected w).1
            ≡ ((do
              increment_login_attempts env (attempts_key env email)
              pure {A = Option User} none)
                w).1)
  unfolding advance increment_login_attempts
  rejected_alone w =
      let up = env.redis.incr (attempts_key env email) w.redis in
      elim (Result-cases up.0) [
        | inr (e, q) ↦ ground arith
        | inl (current, q) ↦ elim (Bool-cases (nat_eq current 1)) [
          | inr b ↦ ground arith
          | inl b ↦ ground (
            arith,
            Result-cases
                (env.redis.expire (attempts_key env email)
                  (or_else env.login_block_duration_seconds 900) up.1).0,
          )
        ]
      ]

module _ (env : Env) (email password : String) where
  -- Four awaits are enough for a call, which then gives what `validateCredentials` gives in one go,
  -- with the same state.
  go_on-validate_credentials :
      (w : World env)
      → (reply_of (go_on env email 4 (arrived password) w).0
          ≡ some (validate_credentials env email password w).0)
        × ((go_on env email 4 (arrived password) w).1
            ≡ (validate_credentials env email password w).1)
  unfolding advance validate_credentials
  go_on-validate_credentials w =
      let key = attempts_key env email in
      elim (Result-cases (env.redis.get key w.redis)) [
        | inr (e, q) ↦ ground arith
        | inl (o, q) ↦ elim (Bool-cases (is_blocked env o)) [
          | inl b ↦ ground arith
          | inr b ↦ elim (Result-cases (env.users.find_one (has_email env email) w.users)) [
            | inr (e, f) ↦ ground arith
            | inl (found, f) ↦ elim (Option-cases found) [
              | inl absent ↦ ground (arith, rejected_alone env email w)
              | inr (user, there) ↦ ground (
                arith,
                rejected_alone env email w,
                Bool-cases (user.is_active),
                Bool-cases (env.compare_password password user.password_hash),
                Result-cases (env.redis.del (attempts_key env email ∷ []) w.redis).0,
              )
            ]
          ]
        ]
      ]
