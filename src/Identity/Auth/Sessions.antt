-- ===== src/Identity/Auth/Sessions.antt =====
-- services/identity-service/src/modules/auth/auth.service.ts: a login and the refreshes after it.
use saas_chassis.Prelude.{
  ℕ, ◌≤◌, ◌≡◌, refl, sym, ap, ◌∙◌, inl, inr, String, true, Option, none, some, List, ok, arith,
  ◌==◌, eq_iff, Result-cases, Option-cases, Bool-cases, find_first, or_else,
}
use saas_chassis.External.Repository.{IsTable, IsAvailable, IsJoined}
use saas_chassis.External.Repository.Lookup.{IsUnique, find_one-save_self}
use saas_chassis.Identity.Entities.{
  User, Role, Membership, RefreshToken, JwtPayload, is_valid, user_login,
}
use saas_chassis.External.Broker.{publish_message}
use saas_chassis.Identity.State.{Env, World}
use saas_chassis.Identity.Users
use saas_chassis.Identity.Users.{same_user, has_id}
use saas_chassis.Identity.Memberships.{is_active}
use saas_chassis.Identity.Auth.{
  TokenResponse, payload_for, sign_access_token, parse_expiry, has_hash, revoked_key,
  primary_payload, login, get_expires_in_seconds, refresh_access_token,
}
use saas_chassis.Identity.Auth.Tokens.{same_token}

abbrev logged_in : (now : ℕ) → User → User
logged_in now u = record u { last_login_at = some now }

module _ (env : Env) where
  abbrev issued :
      (now : ℕ)
      → (random user_id : String) → (ip_address device_info : Option String) → RefreshToken
  issued now random user_id ip_address device_info = record {
    user_id = user_id;
    token_hash = env.sha256 random;
    device_info = device_info;
    ip_address = ip_address;
    expires_at = parse_expiry env now (or_else env.refresh_expiry "7d");
    revoked_at = none;
  }

  abbrev role_in : Option Membership → env.roles.Store → Option Role
  role_in none s = none
  role_in (some m) s = env.join_role m.role_id s

  abbrev payload_in : User → List Membership → env.roles.Store → JwtPayload
  payload_in user ms s =
      payload_for user (find_first is_active ms) (role_in (find_first is_active ms) s)

  abbrev response_to : (random : String) → JwtPayload → TokenResponse
  response_to random payload = record {
    access_token = sign_access_token env payload;
    refresh_token = random;
    expires_in = get_expires_in_seconds env;
  }

  abbrev after_login :
      (now : ℕ)
      → (random : String) → User
      → (ip_address device_info : Option String) → World env
      → World env
  after_login now random user ip_address device_info w = record w {
    tokens = (env.tokens.save (issued now random user.id ip_address device_info) w.tokens).1;
    users = (env.users.update (has_id user.id) (logged_in now) w.users).1;
    publisher =
        publish_message env.broker
          (record {
            exchange = "chassis.audit";
            routing_key = "user.login";
            message = user_login user.id user.email ip_address;
          })
          w.publisher;
  }

  primary_payload-found :
      (user : User) (ms : List Membership) (w : World env)
      → env.memberships.find (λ m. m.user_id == user.id) w.memberships ≡ ok ms
      → primary_payload env user w ≡ (ok (payload_in user ms w.roles), w)
  unfolding primary_payload
  primary_payload-found user ms w f = elim (Option-cases (find_first is_active ms)) [
    | inl n ↦ rw (f, n)
    | inr (m, n) ↦ rw (f, n)
  ]

  login-found :
      (now : ℕ) (random : String) (user : User) (ip_address device_info : Option String)
      (ms : List Membership) (w : World env)
      → env.memberships.find (λ m. m.user_id == user.id) w.memberships ≡ ok ms
      → (env.tokens.save (issued now random user.id ip_address device_info) w.tokens).0 ≡ ok tt
      → (env.users.update (has_id user.id) (logged_in now) w.users).0 ≡ ok tt
      → login env now random user ip_address device_info w ≡ (
        ok (response_to random (payload_in user ms w.roles)),
        after_login now random user ip_address device_info w,
      )
  unfolding login Users.update_last_login
  login-found now random user ip_address device_info ms w f k q =
      elim (Option-cases (find_first is_active ms)) [
        | inl n ↦ rw (f, n, k, q)
        | inr (m, n) ↦ rw (f, n, k, q)
      ]

  -- What a login that returns has read and written.
  record LoggedIn (w w' : World env) (now : ℕ) (random : String) (user : User)
      (ip_address device_info : Option String) (r : TokenResponse) : Type 0 where
    memberships : List Membership
    found : env.memberships.find (λ m. m.user_id == user.id) w.memberships ≡ ok memberships
    saved : (env.tokens.save (issued now random user.id ip_address device_info) w.tokens).0 ≡ ok tt
    stamped : (env.users.update (has_id user.id) (logged_in now) w.users).0 ≡ ok tt
    answer : r ≡ response_to random (payload_in user memberships w.roles)
    state : w' ≡ after_login now random user ip_address device_info w

  login-LoggedIn :
      (now : ℕ) (random : String) (user : User) (ip_address device_info : Option String)
      (w w' : World env) (r : TokenResponse)
      → login env now random user ip_address device_info w ≡ (ok r, w')
      → LoggedIn w w' now random user ip_address device_info r
  unfolding login Users.update_last_login
  login-LoggedIn now random user ip_address device_info w w' r h =
      let t = issued now random user.id ip_address device_info in
      elim (Result-cases (env.memberships.find (λ m. m.user_id == user.id) w.memberships)) [
        | inr (e, f) ↦ ground arith
        | inl (ms, f) ↦ elim (Result-cases (env.tokens.save t w.tokens).0) [
          | inr (e, k) ↦ ground arith
          | inl (tt, k) ↦
              elim (Result-cases (env.users.update (has_id user.id) (logged_in now) w.users).0) [
                | inr (e, q) ↦ ground arith
                | inl (tt, q) ↦
                    let e =
                      sym (login-found now random user ip_address device_info ms w f k q) ∙ h in
                    record {
                      memberships = ms;
                      found = f;
                      saved = k;
                      stamped = q;
                      answer = cc;
                      state = cc;
                    }
              ]
        ]
      ]

  -- The JOIN of the relation `user` finds, after a login, the user with the new date.
  join_user-stamped :
      (now : ℕ) (user : User) (s s' : env.users.Store)
      → IsTable same_user env.users
      → IsJoined env.users (λ u. u.id) env.join_user
      → IsUnique same_user env.users s
      → env.users.Has s user
      → env.users.update (has_id user.id) (logged_in now) s ≡ (ok tt, s')
      → env.join_user user.id s' ≡ some (logged_in now user)
  join_user-stamped now user s s' t j u has stamped =
      let new = logged_in now user in
      let after = t.update_has (has_id user.id) (logged_in now) s s' in
      let own = (eq_iff user.id user.id).1 refl in
      let (y, joined, has_y, id) = j.joined s' new ((after new stamped).1 (user, has, rw own)) in
      let (x, old, e) = (after y stamped).0 has_y in
      elim (Bool-cases (has_id user.id x)) [
        | inl is ↦
            let same : x ≡ user = u.at x user old has is in
            let stamp : y ≡ logged_in now x = rw is at e in cc
        | inr differs ↦
            let kept : y ≡ x = rw differs at e in
            cc ((eq_iff x.id user.id).1 (ap (λ (z : User). z.id) (sym kept) ∙ id))
      ]

  -- Once a login of a stored, active user has returned, and before its refresh token expires, a
  -- refresh with that token returns, changes nothing, and gives the access token and the lifetime
  -- that the login gave: where the database answers queries of the refresh tokens, Redis answers
  -- that the token is not revoked, the JOIN of a user finds the row with that id, and the ids of
  -- users are unique.
  pub refresh_access_token-login :
      (w w' : World env) (now later : ℕ) (random : String) (user : User)
      (ip_address device_info : Option String) (r : TokenResponse)
      → IsTable same_token env.tokens
      → IsAvailable env.tokens
      → IsTable same_user env.users
      → IsJoined env.users (λ u. u.id) env.join_user
      → IsUnique same_user env.users w.users
      → env.users.Has w.users user
      → user.is_active ≡ true
      → env.redis.get (revoked_key (env.sha256 random)) w.redis ≡ ok none
      → login env now random user ip_address device_info w ≡ (ok r, w')
      → later ≤ parse_expiry env now (or_else env.refresh_expiry "7d")
      → refresh_access_token env later r.refresh_token w'
        ≡ (ok (record { access_token = r.access_token; expires_in = r.expires_in }), w')
  unfolding refresh_access_token
  refresh_access_token-login w w' now later random user ip_address device_info r tokens available
        users joined unique has active free h in_time =
      let l = login-LoggedIn now random user ip_address device_info w w' r h in
      let t = issued now random user.id ip_address device_info in
      let v = after_login now random user ip_address device_info w in
      let hash = env.sha256 random in
      let (found, q) = available.found (has_hash env hash) v.tokens in
      let stored : found ≡ some t =
        find_one-save_self tokens (has_hash env hash) t w.tokens v.tokens found
          (λ y. ground (arith, eq_iff hash y.token_hash, eq_iff y.token_hash hash))
          ((eq_iff hash hash).1 refl) (ap (λ o. (o, v.tokens)) l.saved) q in
      let joined_user : env.join_user user.id v.users ≡ some (logged_in now user) =
        join_user-stamped now user w.users v.users users joined unique has
          (ap (λ o. (o, v.users)) l.stamped) in
      let valid : is_valid later t ≡ true = ground arith in
      let f = l.found in
      elim (Option-cases (find_first is_active l.memberships)) [
        | inl n ↦ rw (l.state, l.answer, free, q, stored, valid, joined_user, active, f, n)
        | inr (m, n) ↦ rw (l.state, l.answer, free, q, stored, valid, joined_user, active, f, n)
      ]
