-- ===== src/Identity/Auth/Lockout.antt =====
-- services/identity-service/src/modules/auth/auth.service.ts: `validateCredentials` and the counter
-- of failed attempts in Redis.
use saas_chassis.Prelude.{
  ℕ, zero, suc, ◌≤◌, ◌≡◌, ◌≢◌, refl, ap, ◌∙◌, ◌⊎◌, inl, inr, String, true, Option, none, some, ok,
  arith, Result-cases, Bool-cases, truthy, parse_int, parse_digits, or_else, nat_eq, ◌>>◌, pure,
  >>=-eq-ok, Action,
}
use saas_chassis.External.Redis.{IsRedis}
use saas_chassis.Identity.Entities.{User}
use saas_chassis.Identity.State.{Env, World}
use saas_chassis.Identity.Users.{has_email}
use saas_chassis.Identity.Auth.Credentials.{
  attempts_key, max_attempts, is_blocked, increment_login_attempts, validate_credentials,
}

module _ (env : Env) (t : IsRedis env.redis) where
  -- The counter of the email stands at `n`: no key at 0, else the text of `n`.
  abbrev pub Count : String → ℕ → World env → Type 0
  Count email zero w = env.redis.value w.redis (attempts_key env email) ≡ none
  Count email (suc n) w =
      (text : String) × (env.redis.value w.redis (attempts_key env email) ≡ some text)
      × (parse_int text ≡ some (suc n))

  truthy-parse_int : (text : String) (n : ℕ) → parse_int text ≡ some n → truthy (some text) ≡ true
  unfolding parse_int parse_digits
  truthy-parse_int String.[] n h = cc
  truthy-parse_int (String.◌∷◌ c s) n h = refl

  -- While the counter stands at the limit, of at least 1, or above, no call returns.
  pub validate_credentials-blocked :
      (email password : String) (n : ℕ) (w w' : World env) (r : Option User)
      → 1 ≤ max_attempts env
      → max_attempts env ≤ n
      → Count email n w
      → validate_credentials env email password w ≢ (ok r, w')
  unfolding validate_credentials is_blocked
  validate_credentials-blocked email password zero w w' r pos high count h = omega arith
  validate_credentials-blocked email password (suc n) w w' r pos high (text, value, number) h =
      let tr = truthy-parse_int text (suc n) number in
      elim (Result-cases (env.redis.get (attempts_key env email) w.redis)) [
        | inr (e, q) ↦ ground arith
        | inl (o, q) ↦ let e = t.get_value (attempts_key env email) w.redis o q in ground arith
      ]

  incr-eq-suc :
      (email : String) (n m : ℕ) (w : World env)
      → Count email n w
      → ((env.redis.value w.redis (attempts_key env email) ≡ none) × (m ≡ 1))
        ⊎ ((v : String) × (j : ℕ) × (env.redis.value w.redis (attempts_key env email) ≡ some v)
            × (parse_int v ≡ some j)
            × (m ≡ suc j))
      → m ≡ suc n
  incr-eq-suc email zero m w count (inl (_, e)) = e
  incr-eq-suc email zero m w count (inr (v, j, a, b, c)) = cc
  incr-eq-suc email (suc n) m w (text, value, number) (inl (e, _)) = cc
  incr-eq-suc email (suc n) m w (text, value, number) (inr (v, j, a, b, c)) =
      let same : v ≡ text = cc in let same_number : some j ≡ some (suc n) = cc in ground arith

  -- The reply of INCR counts one more.
  pub incr-Count :
      (email : String) (n m : ℕ) (w : World env) (s : env.redis.Store)
      → Count email n w
      → env.redis.incr (attempts_key env email) w.redis ≡ (ok m, s)
      → Count email (suc n) (record w { redis = s })
  incr-Count email n m w s count counted =
      let k = attempts_key env email in
      let (text, value, number) = t.incr_value k w.redis s m counted in
      let m_n : m ≡ suc n = incr-eq-suc email n m w count (t.incr_counts k w.redis s m counted) in
      (text, value, number ∙ ap some m_n)

  -- A state with the same counter.
  pub Count-same :
      (email : String) (n : ℕ) (w w' : World env)
      → env.redis.value w'.redis (attempts_key env email)
        ≡ env.redis.value w.redis (attempts_key env email)
      → Count email n w
      → Count email n w'
  Count-same email zero w w' e count = e ∙ count
  Count-same email (suc n) w w' e (text, value, number) = (text, e ∙ value, number)

  after_incr :
      (email : String) (m : ℕ) (s : env.redis.Store) (w w' : World env)
      → env.redis.incr (attempts_key env email) w.redis ≡ (ok m, s)
      → increment_login_attempts env (attempts_key env email) w ≡ (ok tt, w')
      → env.redis.value w'.redis (attempts_key env email)
        ≡ env.redis.value s (attempts_key env email)
  unfolding increment_login_attempts
  after_incr email m s w w' counted h =
      let k = attempts_key env email in
      let ttl = or_else env.login_block_duration_seconds 900 in
      elim (Bool-cases (nat_eq m 1)) [
        | inr b ↦ ground arith
        | inl b ↦ t.expire_value k ttl s w'.redis k (ground arith)
      ]

  increment_login_attempts-Count :
      (email : String) (n : ℕ) (w w' : World env)
      → Count email n w
      → increment_login_attempts env (attempts_key env email) w ≡ (ok tt, w')
      → Count email (suc n) w'
  unfolding increment_login_attempts
  increment_login_attempts-Count email n w w' count h =
      let k = attempts_key env email in
      let up = env.redis.incr k w.redis in
      elim (Result-cases up.0) [
        | inr (e, q) ↦ ground arith
        | inl (m, q) ↦
            let counted : env.redis.incr k w.redis ≡ (ok m, up.1) = ap (λ r. (r, up.1)) q in
            Count-same email (suc n) (record w { redis = up.1 }) w'
              (after_incr email m up.1 w w' counted h) (incr-Count email n m w up.1 count counted)
      ]

  failed :
      (email password : String) (w w' : World env)
      → validate_credentials env email password w ≡ (ok none, w')
      → increment_login_attempts env (attempts_key env email) w ≡ (ok tt, w')
  unfolding validate_credentials
  failed email password w w' h =
      let counting : Action (World env) (Option User) = (do
        increment_login_attempts env (attempts_key env email)
        pure none) in
      let counted : counting w ≡ (ok none, w')
          → increment_login_attempts env (attempts_key env email) w ≡ (ok tt, w') =
        λ c.
          let (_, v, one, two) =
            >>=-eq-ok (increment_login_attempts env (attempts_key env email)) (λ _. pure none) w w'
              none c in
          let same : v ≡ w' = ground arith in one ∙ ap (λ x. (ok tt, x)) same in
      elim (Result-cases (env.redis.get (attempts_key env email) w.redis)) [
        | inr (e, q) ↦ ground arith
        | inl (o, q) ↦ elim (Result-cases (env.users.find_one (has_email env email) w.users)) [
          | inr (e, f) ↦ ground arith
          | inl (none, f) ↦ counted (ground (arith, Bool-cases (is_blocked env o)))
          | inl (some u, f) ↦ counted (
              ground (
                arith,
                Bool-cases (is_blocked env o),
                Bool-cases u.is_active,
                Bool-cases (env.compare_password password u.password_hash),
              ))
        ]
      ]

  -- A failed attempt counts.
  validate_credentials-Count :
      (email password : String) (n : ℕ) (w w' : World env)
      → Count email n w
      → validate_credentials env email password w ≡ (ok none, w')
      → Count email (suc n) w'
  unfolding validate_credentials
  validate_credentials-Count email password n w w' count h =
      increment_login_attempts-Count email n w w' count (failed email password w w' h)

  -- The attempts to log in with the email, from one world to another, that failed one after the
  -- other.
  pub data Failures (email : String) : ℕ → World env → World env → Type 0 where
    start : (w : World env) → Failures email 0 w w
    fail :
        (n : ℕ) (password : String) (w v w' : World env)
        → Failures email n w v
        → validate_credentials env email password v ≡ (ok none, w')
        → Failures email (suc n) w w'

  Failures-Count :
      (email : String) (n : ℕ) (w w' : World env)
      → Failures email n w w'
      → Count email 0 w
      → Count email n w'
  Failures-Count email n w w' (start _) count = count
  Failures-Count email n w w' (fail m password _ v _ before h) count =
      validate_credentials-Count email password m v w' (Failures-Count email m w v before count) h

  -- With a limit of at least 1, and from an email without failed attempts: after as many failures in
  -- a row as the limit, or more, the next call does not return, whatever the password.
  pub validate_credentials-Failures :
      (email password : String) (n : ℕ) (w v w' : World env) (r : Option User)
      → 1 ≤ max_attempts env
      → Count email 0 w
      → Failures email n w v
      → max_attempts env ≤ n
      → validate_credentials env email password v ≢ (ok r, w')
  validate_credentials-Failures email password n w v w' r pos count failures high =
      validate_credentials-blocked email password n v w' r pos high
        (Failures-Count email n w v failures count)
