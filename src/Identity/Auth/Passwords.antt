-- ===== src/Identity/Auth/Passwords.antt =====
-- services/identity-service/src/modules/auth: what the check of a password, `validateCredentials` of
-- auth.service.ts through `validate` of strategies/local.strategy.ts, has found where it returns.
use saas_chassis.Prelude.{
  ℕ, ◌<◌, ◌≡◌, refl, ap, ◌∙◌, ◌⊎◌, inl, inr, String, true, false, Option, none, some, [], ◌∷◌, ok,
  arith, ◌==◌, template, or_else, parse_int, Result-cases, Option-cases, Bool-cases,
}
use saas_chassis.Identity.Entities.{User}
use saas_chassis.Identity.State.{Env, World}
use saas_chassis.Identity.Users.{has_email}
use saas_chassis.Identity.Auth.Credentials.{
  attempts_key, is_blocked, increment_login_attempts, validate_credentials, local_validate,
}

-- A counter that does not lock: there is none, or its text is empty, no number, or below the limit.
abbrev pub IsOpen : (limit : ℕ) → Option String → Type 0
IsOpen limit counter =
    (counter ≡ none)
    ⊎ ((text : String) × (counter ≡ some text)
        × ((text ≡ "")
            ⊎ ((parse_int text ≡ none) ⊎ ((n : ℕ) × (parse_int text ≡ some n) × (n < limit)))))

module _ (env : Env) where
  is_blocked-IsOpen :
      (counter : Option String)
      → is_blocked env counter ≡ false
      → IsOpen (or_else env.login_max_attempts 5) counter
  unfolding is_blocked
  is_blocked-IsOpen none h = inl refl
  is_blocked-IsOpen (some String.[]) h = inr ("", refl, inl refl)
  is_blocked-IsOpen (some (String.◌∷◌ c s)) h =
      let text = String.◌∷◌ c s in
      elim (Option-cases (parse_int text)) [
        | inl e ↦ inr (text, refl, inr (inl e))
        | inr (n, e) ↦ inr (text, refl, inr (inr (n, e, ground arith)))
      ]

  -- A check of an email and a password that returns a user has read a counter of failed attempts
  -- that does not lock, below the limit of the configuration or 5; the user is the one that the
  -- query for the email in lower case finds, is active, and the password compares with its hash; and
  -- it has deleted the counter and written nothing else.
  pub local_validate-ok :
      (email password : String) (w w' : World env) (user : User)
      → local_validate env email password w ≡ (ok user, w')
      → (key : String) × (counter : Option String) × (key
          ≡ template ("login_attempts:" ∷ env.to_lower_case email ∷ []))
        × (env.redis.get key w.redis ≡ ok counter)
        × IsOpen (or_else env.login_max_attempts 5) counter
        × (env.users.find_one (λ u. u.email == env.to_lower_case email) w.users ≡ ok (some user))
        × (user.is_active ≡ true)
        × (env.compare_password password user.password_hash ≡ true)
        × (env.redis.del (key ∷ []) w.redis ≡ (ok tt, w'.redis))
        × (w' ≡ record w { redis = w'.redis })
  unfolding local_validate validate_credentials
  local_validate-ok email password w w' user h =
      let key = attempts_key env email in
      let counted = (increment_login_attempts env key w).0 in
      elim (Result-cases (env.redis.get key w.redis)) [
        | inr (e, q) ↦ cc (rw q at h)
        | inl (counter, q) ↦ elim (Bool-cases (is_blocked env counter)) [
          | inl b ↦ cc (rw (q, b) at h)
          | inr b ↦
              let below = is_blocked-IsOpen counter b in
              elim (Result-cases (env.users.find_one (has_email env email) w.users)) [
                | inr (e, f) ↦ cc (rw (q, b, f) at h)
                | inl (none, f) ↦ ground (arith, Result-cases counted)
                | inl (some u, f) ↦ elim (Bool-cases u.is_active) [
                  | inr a ↦ ground (arith, Result-cases counted)
                  | inl a ↦ elim (Bool-cases (env.compare_password password u.password_hash)) [
                    | inr c ↦ ground (arith, Result-cases counted)
                    | inl c ↦ elim (Result-cases (env.redis.del (key ∷ []) w.redis).0) [
                      | inr (e, d) ↦ ground arith
                      | inl (_, d) ↦
                          let same : u ≡ user = ground arith in
                          let found = f ∙ ap (λ v. ok (some v)) same in
                          (
                            key,
                            counter,
                            refl,
                            q,
                            below,
                            found,
                            ground arith,
                            ground arith,
                            ground arith,
                            ground arith,
                          )
                    ]
                  ]
                ]
              ]
        ]
      ]
