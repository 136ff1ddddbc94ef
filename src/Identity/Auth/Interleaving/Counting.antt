-- ===== src/Identity/Auth/Interleaving/Counting.antt =====
-- services/identity-service/src/modules/auth/auth.service.ts: the counter of failed attempts under
-- concurrent calls of `validateCredentials`.
use saas_chassis.Prelude.{
  ℕ, zero, suc, ◌≤◌, ◌≡◌, ◌≢◌, refl, ap, inl, inr, String, Bool, true, false, ◌&&◌, Option, none,
  some, List, [], ◌∷◌, map, Result, ok, err, arith, Result-cases, Bool-cases, or_else, nat_eq,
}
use saas_chassis.External.Redis.{IsRedis}
use saas_chassis.Identity.Entities.{User}
use saas_chassis.Identity.State.{Env, World}
use saas_chassis.Identity.Users.{has_email}
use saas_chassis.Identity.Auth.Credentials.{attempts_key, max_attempts, validate_credentials}
use saas_chassis.Identity.Auth.Lockout.{Count, incr-Count, Count-same, validate_credentials-blocked}
use saas_chassis.Identity.Auth.Interleaving.{
  Phase, arrived, admitted, rejected, accepted, counted, refused, ended, after_get, after_query,
  after_incr, after_write, advance, turn, interleave,
}

-- The call has neither found the right password nor met a failure of Redis or of the database.
abbrev pub plain : Phase → Bool
plain (accepted user) = false
plain (ended (ok (some user))) = false
plain (ended (err e)) = false
plain _ = true

abbrev pub all_plain : List Phase → Bool
all_plain [] = true
all_plain (p ∷ ps) = plain p && all_plain ps

-- One more for a call that has had the reply of INCR.
abbrev pub with_call : Phase → ℕ → ℕ
with_call (counted current) n = suc n
with_call (ended (ok none)) n = suc n
with_call _ n = n

-- How many calls have had the reply of INCR, with `n` others.
abbrev pub tally : List Phase → ℕ → ℕ
tally [] n = n
tally (p ∷ ps) n = tally ps (with_call p n)

tally-suc : (ps : List Phase) (n : ℕ) → tally ps (suc n) ≡ suc (tally ps n)
tally-suc [] n = refl
tally-suc (arrived x ∷ ps) n = tally-suc ps n
tally-suc (admitted x ∷ ps) n = tally-suc ps n
tally-suc (rejected ∷ ps) n = tally-suc ps n
tally-suc (accepted u ∷ ps) n = tally-suc ps n
tally-suc (counted c ∷ ps) n = tally-suc ps (suc n)
tally-suc (refused ∷ ps) n = tally-suc ps n
tally-suc (ended (ok none) ∷ ps) n = tally-suc ps (suc n)
tally-suc (ended (ok (some u)) ∷ ps) n = tally-suc ps n
tally-suc (ended (err e) ∷ ps) n = tally-suc ps n

tally-with_call :
    (p : Phase) (ps : List Phase) (n : ℕ) → tally ps (with_call p n) ≡ with_call p (tally ps n)
tally-with_call (arrived x) ps n = refl
tally-with_call (admitted x) ps n = refl
tally-with_call rejected ps n = refl
tally-with_call (accepted u) ps n = refl
tally-with_call (counted c) ps n = tally-suc ps n
tally-with_call refused ps n = refl
tally-with_call (ended (ok none)) ps n = tally-suc ps n
tally-with_call (ended (ok (some u))) ps n = refl
tally-with_call (ended (err e)) ps n = refl

module _ (env : Env) (email : String) where
  after_get-with_call :
      (password : String) (r : Result (Option String)) (n : ℕ)
      → with_call (after_get env email password r) n ≡ n
  unfolding after_get
  after_get-with_call password (err e) n = refl
  after_get-with_call password (ok attempts) n = ground arith

  after_query-with_call :
      (password : String) (r : Result (Option User)) (n : ℕ)
      → with_call (after_query env email password r) n ≡ n
  unfolding after_query
  after_query-with_call password (err e) n = refl
  after_query-with_call password (ok none) n = refl
  after_query-with_call password (ok (some user)) n = ground arith

  after_write-plain :
      (user : User) (r : Result (Unit {0})) → plain (after_write env email (some user) r) ≡ false
  unfolding after_write
  after_write-plain user (err e) = refl
  after_write-plain user (ok _) = refl

-- A call that is plain was plain before.
module _ (env : Env) (email : String) where
  advance-plain :
      (p : Phase) (w : World env) → plain (advance env email p w).0 ≡ true → plain p ≡ true
  unfolding advance
  advance-plain (arrived password) w h = refl
  advance-plain (admitted password) w h = refl
  advance-plain rejected w h = refl
  advance-plain (accepted user) w h =
      cc (after_write-plain env email user (env.redis.del (attempts_key env email ∷ []) w.redis).0)
  advance-plain (counted current) w h = refl
  advance-plain refused w h = refl
  advance-plain (ended r) w h = h

  turn-plain :
      (i : ℕ) (ps : List Phase) (w : World env)
      → all_plain (turn env email i ps w).0 ≡ true
      → all_plain ps ≡ true
  unfolding turn
  turn-plain i [] w h = refl
  turn-plain zero (p ∷ ps) w h =
      let q = (advance env email p w).0 in
      let before = advance-plain p w (ground (arith, Bool-cases (plain q))) in
      ground (arith, Bool-cases (plain q))
  turn-plain (suc i) (p ∷ ps) w h =
      let rest = turn-plain i ps w (ground (arith, Bool-cases (plain p))) in
      ground (arith, Bool-cases (plain p))

  interleave-plain :
      (schedule : List ℕ) (ps : List Phase) (w : World env)
      → all_plain (interleave env email schedule ps w).0 ≡ true
      → all_plain ps ≡ true
  unfolding interleave
  interleave-plain [] ps w h = h
  interleave-plain (i ∷ schedule) ps w h =
      let (qs, v) = turn env email i ps w in turn-plain i ps w (interleave-plain schedule qs v h)

tally-arrived : (passwords : List String) → tally (map arrived passwords) 0 ≡ 0
tally-arrived [] = refl
tally-arrived (x ∷ xs) = tally-arrived xs

module _ (env : Env) (t : IsRedis env.redis) (email : String) where
  -- One await of a call that stays plain.
  advance-Count :
      (p : Phase) (n : ℕ) (w : World env)
      → plain (advance env email p w).0 ≡ true
      → Count env t email (with_call p n) w
      → Count env t email (with_call (advance env email p w).0 n) (advance env email p w).1
  unfolding advance after_incr after_write
  advance-Count (arrived password) n w h c =
      let e =
        after_get-with_call env email password (env.redis.get (attempts_key env email) w.redis) n in
      rw e c
  advance-Count (admitted password) n w h c =
      let e =
        after_query-with_call env email password (env.users.find_one (has_email env email) w.users)
          n in
      rw e c
  advance-Count rejected n w h c =
      let up = env.redis.incr (attempts_key env email) w.redis in
      elim (Result-cases up.0) [
        | inr (e, q) ↦ cc (rw q at h)
        | inl (m, q) ↦ rw q (incr-Count env t email n m w up.1 c (ap (λ r. (r, up.1)) q))
      ]
  advance-Count (accepted user) n w h c =
      cc (after_write-plain env email user (env.redis.del (attempts_key env email ∷ []) w.redis).0)
  advance-Count (counted current) n w h c =
      let k = attempts_key env email in
      let ttl = or_else env.login_block_duration_seconds 900 in
      let set = env.redis.expire k ttl w.redis in
      elim (Bool-cases (nat_eq current 1)) [
        | inr b ↦ rw b c
        | inl b ↦ elim (Result-cases set.0) [
          | inr (e, q) ↦ cc (rw (b, q) at h)
          | inl (_, q) ↦
              rw (b, q)
                (Count-same env t email (suc n) w (record w { redis = set.1 })
                  (t.expire_value k ttl w.redis set.1 k (ap (λ r. (r, set.1)) q)) c)
        ]
      ]
  advance-Count refused n w h c = c
  advance-Count (ended r) n w h c = c

  -- One await of one of several calls that all stay plain.
  turn-Count :
      (i : ℕ) (ps : List Phase) (n : ℕ) (w : World env)
      → all_plain (turn env email i ps w).0 ≡ true
      → Count env t email (tally ps n) w
      → Count env t email (tally (turn env email i ps w).0 n) (turn env email i ps w).1
  unfolding turn
  turn-Count i [] n w h c = c
  turn-Count zero (p ∷ ps) n w h c =
      let (q, v) = advance env email p w in
      let fine : plain q ≡ true = ground (arith, Bool-cases (plain q)) in
      rw (tally-with_call q ps n)
        (advance-Count p (tally ps n) w fine (rw (← tally-with_call p ps n) c))
  turn-Count (suc i) (p ∷ ps) n w h c =
      turn-Count i ps (with_call p n) w (ground (arith, Bool-cases (plain p))) c

  interleave-Count :
      (schedule : List ℕ) (ps : List Phase) (w : World env)
      → all_plain (interleave env email schedule ps w).0 ≡ true
      → Count env t email (tally ps 0) w
      → Count env t email
          (tally (interleave env email schedule ps w).0 0)
          (interleave env email schedule ps w).1
  unfolding interleave
  interleave-Count [] ps w h c = c
  interleave-Count (i ∷ schedule) ps w h c =
      let (qs, v) = turn env email i ps w in
      interleave-Count schedule qs v h
        (turn-Count i ps 0 w (interleave-plain env email schedule qs v h) c)

  -- Calls for one email interleave in any order, one await at a time, from a counter that stands at
  -- 0, and no key expires meanwhile. While none of them has found the right password or met a failure of Redis or the database,
  -- the counter has not lost one that had the reply of INCR: once they are as many as the limit, of
  -- at least 1, or more, no further call returns, whatever the password.
  pub interleave-blocked :
      (passwords : List String) (schedule : List ℕ) (password : String) (w w' : World env)
      (r : Option User)
      → 1 ≤ max_attempts env
      → Count env t email 0 w
      → all_plain (interleave env email schedule (map arrived passwords) w).0 ≡ true
      → max_attempts env ≤ tally (interleave env email schedule (map arrived passwords) w).0 0
      → validate_credentials env email password
          (interleave env email schedule (map arrived passwords) w).1
        ≢ (ok r, w')
  interleave-blocked passwords schedule password w w' r pos zero_count fine high =
      let (qs, v) = interleave env email schedule (map arrived passwords) w in
      validate_credentials-blocked env t email password (tally qs 0) v w' r pos high (
        interleave-Count schedule (map arrived passwords) w fine
          (rw (tally-arrived passwords) zero_count))
