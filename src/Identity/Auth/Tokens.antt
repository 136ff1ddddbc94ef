-- ===== src/Identity/Auth/Tokens.antt =====
-- services/identity-service/src/modules/auth/auth.service.ts: refresh tokens and their revocation.
use saas_chassis.Prelude.{
  ℕ, ◌≤◌, ◌≡◌, ◌≢◌, inl, inr, String, Bool, true, none, some, ok, arith, ◌==◌, eq_iff, Result-cases,
  Option-cases, find_first,
}
use saas_chassis.External.Repository.{IsTable}
use saas_chassis.External.Repository.Lookup.{find_one-save_self}
use saas_chassis.Identity.Entities.{User, RefreshToken, is_valid}
use saas_chassis.Identity.Memberships.{is_active}
use saas_chassis.Identity.State.{Env, World}
use saas_chassis.Identity.Auth.{
  AccessTokenResponse, has_hash, revoked_key, refresh_access_token, logout,
}

-- The unique key of the table refresh_tokens.
abbrev pub same_token : RefreshToken → RefreshToken → Bool
same_token s t = s.token_hash == t.token_hash

module _ (env : Env) where
  -- What a refresh that returns has found.
  pub refresh_access_token-found :
      (w w' : World env) (now : ℕ) (refresh_token : String) (r : AccessTokenResponse)
      → refresh_access_token env now refresh_token w ≡ (ok r, w')
      → (stored : RefreshToken) × (env.tokens.find_one
            (has_hash env (env.sha256 refresh_token))
            w.tokens
          ≡ ok (some stored))
        × (is_valid now stored ≡ true)
        × (u : User) × (env.join_user stored.user_id w.users ≡ some u)
        × (u.is_active ≡ true)
  unfolding refresh_access_token
  refresh_access_token-found w w' now refresh_token r h =
      elim (Result-cases (env.redis.get (revoked_key (env.sha256 refresh_token)) w.redis)) [
        | inr (e, q) ↦ ground arith
        | inl (blacklisted, q) ↦
            elim (Result-cases
              (env.tokens.find_one (has_hash env (env.sha256 refresh_token)) w.tokens)) [
                | inr (e, k) ↦ ground arith
                | inl (none, k) ↦ ground arith
                | inl (some stored, k) ↦
                    elim (Option-cases (env.join_user stored.user_id w.users)) [
                      | inl n ↦ ground arith
                      | inr (u, j) ↦ (stored, k, ground arith, u, j, ground arith)
                    ]
              ]
      ]

  same_world :
      (w w' : World env) (now : ℕ) (refresh_token : String) (r : AccessTokenResponse)
      → refresh_access_token env now refresh_token w ≡ (ok r, w')
      → w' ≡ w
  unfolding refresh_access_token
  same_world w w' now refresh_token r h =
      let (stored, k, valid, u, j, active) =
        refresh_access_token-found w w' now refresh_token r h in
      elim (Result-cases (env.redis.get (revoked_key (env.sha256 refresh_token)) w.redis)) [
        | inr (e, q) ↦ ground arith
        | inl (blacklisted, q) ↦
            elim (Result-cases (env.memberships.find (λ m. m.user_id == u.id) w.memberships)) [
              | inl (ms, f) ↦ elim (Option-cases (find_first is_active ms)) [
                | inl n ↦ ground arith
                | inr (m, n) ↦ ground arith
              ]
              | inr (e, f) ↦ ground arith
            ]
      ]

  -- A refresh returns only for a stored token that has neither expired nor been revoked, whose user
  -- is active, and it writes nothing.
  pub refresh_access_token-ok :
      (w w' : World env) (now : ℕ) (refresh_token : String) (r : AccessTokenResponse)
      → IsTable same_token env.tokens
      → refresh_access_token env now refresh_token w ≡ (ok r, w')
      → (w' ≡ w)
        × ((stored : RefreshToken) × (u : User) × env.tokens.Has w.tokens stored
            × (stored.token_hash ≡ env.sha256 refresh_token)
            × (now ≤ stored.expires_at)
            × (stored.revoked_at ≡ none)
            × (env.join_user stored.user_id w.users ≡ some u)
            × (u.is_active ≡ true))
  refresh_access_token-ok w w' now refresh_token r t h =
      let (stored, found, valid, u, joined, active) =
        refresh_access_token-found w w' now refresh_token r h in
      let (has, key) =
        t.find_one_some (has_hash env (env.sha256 refresh_token)) w.tokens stored found in
      (
        same_world w w' now refresh_token r h,
        (
          stored,
          u,
          has,
          (eq_iff stored.token_hash (env.sha256 refresh_token)).0 key,
          ground arith,
          (elim (Option-cases stored.revoked_at) [ inl n ↦ n | inr (d, e) ↦ ground arith ]),
          joined,
          active,
        ),
      )

  -- In the state that a logout which returned has left, no refresh of that token returns, whatever
  -- the time.
  pub refresh_access_token-logout :
      (w w' w'' : World env) (now later : ℕ) (refresh_token : String) (r : AccessTokenResponse)
      → IsTable same_token env.tokens
      → logout env now refresh_token w ≡ (ok tt, w')
      → refresh_access_token env later refresh_token w' ≢ (ok r, w'')
  unfolding logout
  refresh_access_token-logout w w' w'' now later refresh_token r t out h =
      let (stored, found, valid, u, joined, active) =
        refresh_access_token-found w' w'' later refresh_token r h in
      elim (Result-cases (env.tokens.find_one (has_hash env (env.sha256 refresh_token)) w.tokens)) [
        | inr (e, q) ↦ ground arith
        | inl (none, q) ↦ ground arith
        | inl (some x, q) ↦ elim (Option-cases x.revoked_at) [
          | inr (d, k) ↦ ground (arith, found, q, valid)
          | inl k ↦
              let saved : env.tokens.save (record x { revoked_at = some now }) w.tokens
                  ≡ (ok tt, w'.tokens) =
                ground arith in
              let (_, key) =
                t.find_one_some (has_hash env (env.sha256 refresh_token)) w.tokens x q in
              let e =
                find_one-save_self t (has_hash env (env.sha256 refresh_token))
                  (record x { revoked_at = some now }) w.tokens w'.tokens (some stored)
                  (λ u. ground (
                    arith,
                    eq_iff x.token_hash (env.sha256 refresh_token),
                    eq_iff x.token_hash u.token_hash,
                    eq_iff u.token_hash (env.sha256 refresh_token),
                  ))
                  key saved found in
              ground arith
        ]
      ]
