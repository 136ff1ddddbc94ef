-- ===== src/Identity/Impersonation/Ending.antt =====
-- services/identity-service/src/modules/impersonation/impersonation.service.ts: what the end of an
-- impersonation changes, and what it leaves.
use saas_chassis.Prelude.{
  ℕ, ◌≡◌, ◌≢◌, refl, ap, sym, ◌∙◌, inl, inr, String, Bool, Option, none, some, List, ok, ◌==◌,
  eq_iff, Elem, Result-cases, Bool-cases, or_else, truthy, IsPreorder, Same, Same-IsPreorder, Steps,
  Steps->>, when-Steps, Option-cases, find_first, ◌&&◌, ltb,
}
use saas_chassis.External.Repository.{IsTable}
use saas_chassis.Identity.Entities.{User, ImpersonationSession, JwtPayload}
use saas_chassis.Identity.State.{Env, World, redis_setex}
use saas_chassis.Identity.Memberships.{is_active}
use saas_chassis.Identity.Users
use saas_chassis.Identity.Users.{has_id}
use saas_chassis.Identity.Auth.{
  AccessTokenResponse, remaining_ttl, revoked_key, jwt_validate, primary_payload,
}
use saas_chassis.Identity.Auth.Delegation.{revoke_impersonation_token, reissue_admin_token}
use saas_chassis.Identity.Impersonation.{
  is_open, is_active_for, end_session, end_impersonation, find_active_sessions,
}

-- The primary key of the table impersonation_sessions.
abbrev pub same_session : ImpersonationSession → ImpersonationSession → Bool
same_session x y = x.id == y.id

module _ (env : Env) where
  abbrev SameUsers : World env → World env → Type 0
  SameUsers = Same (λ (w : World env). w.users)

  abbrev preorder : IsPreorder SameUsers
  preorder = Same-IsPreorder (λ (w : World env). w.users)

  -- A revocation writes to Redis only.
  revoke_impersonation_token-Same :
      {S : Type 0} (part : World env → S)
      → ((w : World env) (s : env.redis.Store) → part (record w { redis = s }) ≡ part w)
      → (now : ℕ) (hash : String) (expires_at : ℕ)
      → Steps (Same part) (revoke_impersonation_token env now hash expires_at)
  unfolding revoke_impersonation_token
  revoke_impersonation_token-Same part redis now hash expires_at =
      let ttl = remaining_ttl now expires_at in
      when-Steps (Same-IsPreorder part) (ltb 0 ttl) (redis_setex env (revoked_key hash) ttl "1")
        (λ w. record { same = redis w (env.redis.setex (revoked_key hash) ttl "1" w.redis).1 })

  end_session-users :
      (now : ℕ) (o : Option ImpersonationSession) → Steps SameUsers (end_session env now o)
  unfolding end_session
  end_session-users now none = λ w. record { same = refl }
  end_session-users now (some s) =
      Steps->> preorder _ _ (λ w. record { same = refl })
        (revoke_impersonation_token-Same (λ w. w.users) (λ w t. refl) now s.token_hash s.expires_at)

  primary_payload-state : (u : User) (w : World env) → (primary_payload env u w).1 ≡ w
  unfolding primary_payload
  primary_payload-state u w =
      elim (Result-cases (env.memberships.find (λ m. m.user_id == u.id) w.memberships)) [
        | inr (e, f) ↦ rw f
        | inl (ms, f) ↦ elim (Option-cases (find_first is_active ms)) [
          | inl n ↦ rw (f, n)
          | inr (m, n) ↦ rw (f, n)
        ]
      ]

  -- A token of the administrator is issued without a write.
  reissue_admin_token-state : (id : String) (w : World env) → (reissue_admin_token env id w).1 ≡ w
  unfolding reissue_admin_token Users.find_by_id
  reissue_admin_token-state id w = elim (Result-cases (env.users.find_one (has_id id) w.users)) [
    | inr (e, f) ↦ rw f
    | inl (none, f) ↦ rw f
    | inl (some u, f) ↦ rw f (elim (Result-cases (primary_payload env u w).0) [
      | inr (e, q) ↦ rw q (primary_payload-state u w)
      | inl (x, q) ↦ rw q (primary_payload-state u w)
    ])
  ]

  end_impersonation-users :
      (now : ℕ) (user : JwtPayload) → Steps SameUsers (end_impersonation env now user)
  unfolding end_impersonation
  end_impersonation-users now user w =
      let id = or_else user.real_user_id "" in
      elim (Bool-cases user.is_impersonating) [
        | inr off ↦ rw off (record { same = refl })
        | inl on ↦ elim (Bool-cases (truthy user.real_user_id)) [
          | inr off ↦ rw (on, off) (record { same = refl })
          | inl real ↦ elim (Result-cases (env.last_session (is_open user.sub id) w.sessions)) [
            | inr (e, l) ↦ rw (on, real, l) (record { same = refl })
            | inl (o, l) ↦ elim (Result-cases (end_session env now o w).0) [
              | inr (e, q) ↦ rw (on, real, l, q) (end_session-users now o w)
              | inl (x, q) ↦
                  rw (on, real, l, q, reissue_admin_token-state id (end_session env now o w).1)
                    (end_session-users now o w)
            ]
          ]
        ]
      ]

  -- The end of a session that returns has saved it with its end.
  end_impersonation-saved :
      (now : ℕ) (user : JwtPayload) (s : ImpersonationSession) (w w' : World env)
      (r : AccessTokenResponse)
      → env.last_session (is_open user.sub (or_else user.real_user_id "")) w.sessions ≡ ok (some s)
      → end_impersonation env now user w ≡ (ok r, w')
      → env.sessions.save (record s { ended_at = some now }) w.sessions ≡ (ok tt, w'.sessions)
  unfolding end_impersonation
  end_impersonation-saved now user s w w' r l h =
      let id = or_else user.real_user_id "" in
      let done = env.sessions.save (record s { ended_at = some now }) w.sessions in
      let w1 : World env = record w { sessions = done.1 } in
      let revoke = revoke_impersonation_token env now s.token_hash s.expires_at w1 in
      elim (Bool-cases user.is_impersonating) [
        | inr off ↦ cc (rw off at h)
        | inl on ↦ elim (Bool-cases (truthy user.real_user_id)) [
          | inr off ↦ cc (rw (on, off) at h)
          | inl real ↦ elim (Result-cases done.0) [
            | inr (e, q) ↦ cc (rw (on, real, l, q) at h)
            | inl (tt, q) ↦ elim (Result-cases revoke.0) [
              | inr (e, v) ↦ cc (rw (on, real, l, q, v) at h)
              | inl (tt, v) ↦
                  let state : revoke.1 ≡ w' =
                    sym (reissue_admin_token-state id revoke.1)
                    ∙ ap (λ o. o.1) (rw (on, real, l, q, v) at h) in
                  let kept =
                    revoke_impersonation_token-Same (λ w. w.sessions) (λ w t. refl) now s.token_hash
                      s.expires_at w1 in
                  let same : w'.sessions ≡ done.1 = ap (λ v. v.sessions) (sym state) ∙ kept.same in
                  cc
            ]
          ]
        ]
      ]

  -- After the end of an impersonation, whether it returned or threw, the check of a token answers
  -- what it answered before, whatever its payload: also for the token of the ended impersonation.
  pub jwt_validate-end_impersonation :
      (now : ℕ) (user payload : JwtPayload) (w : World env)
      → (jwt_validate env payload (end_impersonation env now user w).1).0
        ≡ (jwt_validate env payload w).0
  unfolding jwt_validate
  jwt_validate-end_impersonation now user payload w =
      let users = (end_impersonation-users now user w).same in
      elim (Result-cases (env.users.find_one (λ u. u.id == payload.sub && u.is_active) w.users)) [
        | inr (e, f) ↦ rw (users, f)
        | inl (none, f) ↦ rw (users, f)
        | inl (some u, f) ↦ rw (users, f)
      ]

  -- Once the end of an impersonation has returned, a list of the active sessions that returns, at
  -- any time, of any administrator or of all, does not hold the session that was ended.
  pub find_active_sessions-end_impersonation :
      (now later : ℕ) (user : JwtPayload) (admin : Option String) (s x : ImpersonationSession)
      (xs : List ImpersonationSession) (w w' w'' : World env) (r : AccessTokenResponse)
      → IsTable same_session env.sessions
      → env.last_session (is_open user.sub (or_else user.real_user_id "")) w.sessions ≡ ok (some s)
      → end_impersonation env now user w ≡ (ok r, w')
      → find_active_sessions env later admin w' ≡ (ok xs, w'')
      → Elem x xs
      → x.id ≢ s.id
  unfolding find_active_sessions
  find_active_sessions-end_impersonation now later user admin s x xs w w' w'' r t l h f m same =
      let ended : ImpersonationSession = record s { ended_at = some now } in
      let saved = end_impersonation-saved now user s w w' r l h in
      let found : env.sessions.find (is_active_for later admin) w'.sessions ≡ ok xs =
        ap (λ o. o.0) f in
      let (has, active) = (t.find_all (is_active_for later admin) w'.sessions xs x found).0 m in
      elim ((t.save_has ended w.sessions w'.sessions x saved).0 has) [
        | inl e ↦ cc (ap (is_active_for later admin) e)
        | inr (old, other) ↦ cc ((eq_iff s.id x.id).1 (sym same))
      ]
