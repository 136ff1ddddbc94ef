-- ===== src/Identity/State.antt =====
-- What identity-service is built over, and its state: six tables, Redis and the publisher.
use saas_chassis.Prelude.{ℕ, String, Bool, Option, List, Result, ok, Action}
use saas_chassis.External.Repository.{Repository}
use saas_chassis.External.Redis.{Redis}
use saas_chassis.External.Broker.{Broker, Publisher, publish_message}
use saas_chassis.Identity.Entities.{
  User, Role, Permission, Membership, RefreshToken, ImpersonationSession, JwtPayload, Message,
}

-- `join_role` and `join_user` give the row that a relation's JOIN finds for a foreign key, and
-- `last_session` is a `findOne` that takes the newest session. `hash_password` and
-- `compare_password` are bcryptjs, `sha256` is the digest in hex, `sign` is `JwtService.sign` with
-- its expiry. The rest is configuration: an option is a setting that may be absent.
pub record Env : Type 1 where
  pub users : Repository User
  pub roles : Repository Role
  pub permissions : Repository Permission
  pub memberships : Repository Membership
  pub tokens : Repository RefreshToken
  pub sessions : Repository ImpersonationSession
  pub redis : Redis
  pub broker : Broker Message
  pub join_role : String → roles.Store → Option Role
  pub join_user : String → users.Store → Option User
  pub last_session :
      (ImpersonationSession → Bool) → sessions.Store → Result (Option ImpersonationSession)
  pub hash_password : String → String
  pub compare_password : String → String → Bool
  pub sha256 : String → String
  pub sign : JwtPayload → String → String
  pub to_lower_case : String → String
  pub login_max_attempts : Option ℕ
  pub login_block_duration_seconds : Option ℕ
  pub jwt_expiry : Option String
  pub refresh_expiry : Option String
  pub impersonation_expiry : Option String

pub record World (env : Env) : Type 0 where
  pub users : env.users.Store
  pub roles : env.roles.Store
  pub permissions : env.permissions.Store
  pub memberships : env.memberships.Store
  pub tokens : env.tokens.Store
  pub sessions : env.sessions.Store
  pub redis : env.redis.Store
  pub publisher : Publisher env.broker

module _ (env : Env) where
  abbrev pub find_one_user : (User → Bool) → Action (World env) (Option User)
  find_one_user p w = (env.users.find_one p w.users, w)

  abbrev pub find_users : (User → Bool) → Action (World env) (List User)
  find_users p w = (env.users.find p w.users, w)

  abbrev pub new_user_id : Action (World env) String
  new_user_id w = (ok (env.users.new_id w.users), w)

  abbrev pub save_user : User → Action (World env) (Unit {0})
  save_user x w = let (r, s) = env.users.save x w.users in (r, record w { users = s })

  abbrev pub update_users : (User → Bool) → (User → User) → Action (World env) (Unit {0})
  update_users p f w = let (r, s) = env.users.update p f w.users in (r, record w { users = s })

  abbrev pub find_one_role : (Role → Bool) → Action (World env) (Option Role)
  find_one_role p w = (env.roles.find_one p w.roles, w)

  abbrev pub find_roles : (Role → Bool) → Action (World env) (List Role)
  find_roles p w = (env.roles.find p w.roles, w)

  abbrev pub find_permissions : (Permission → Bool) → Action (World env) (List Permission)
  find_permissions p w = (env.permissions.find p w.permissions, w)

  -- The relation `role` of a membership.
  abbrev pub role_of : Membership → Action (World env) (Option Role)
  role_of m w = (ok (env.join_role m.role_id w.roles), w)

  abbrev pub find_one_membership : (Membership → Bool) → Action (World env) (Option Membership)
  find_one_membership p w = (env.memberships.find_one p w.memberships, w)

  abbrev pub find_memberships : (Membership → Bool) → Action (World env) (List Membership)
  find_memberships p w = (env.memberships.find p w.memberships, w)

  abbrev pub save_membership : Membership → Action (World env) (Unit {0})
  save_membership x w =
      let (r, s) = env.memberships.save x w.memberships in (r, record w { memberships = s })

  abbrev pub find_one_token : (RefreshToken → Bool) → Action (World env) (Option RefreshToken)
  find_one_token p w = (env.tokens.find_one p w.tokens, w)

  -- The relation `user` of a refresh token.
  abbrev pub user_of : RefreshToken → Action (World env) (Option User)
  user_of t w = (ok (env.join_user t.user_id w.users), w)

  abbrev pub save_token : RefreshToken → Action (World env) (Unit {0})
  save_token x w = let (r, s) = env.tokens.save x w.tokens in (r, record w { tokens = s })

  abbrev pub find_last_session :
      (ImpersonationSession → Bool) → Action (World env) (Option ImpersonationSession)
  find_last_session p w = (env.last_session p w.sessions, w)

  abbrev pub find_sessions :
      (ImpersonationSession → Bool) → Action (World env) (List ImpersonationSession)
  find_sessions p w = (env.sessions.find p w.sessions, w)

  abbrev pub new_session_id : Action (World env) String
  new_session_id w = (ok (env.sessions.new_id w.sessions), w)

  abbrev pub save_session : ImpersonationSession → Action (World env) (Unit {0})
  save_session x w = let (r, s) = env.sessions.save x w.sessions in (r, record w { sessions = s })

  abbrev pub redis_get : String → Action (World env) (Option String)
  redis_get k w = (env.redis.get k w.redis, w)

  abbrev pub redis_setex : String → ℕ → String → Action (World env) (Unit {0})
  redis_setex k ttl v w =
      let (r, s) = env.redis.setex k ttl v w.redis in (r, record w { redis = s })

  abbrev pub redis_del : List String → Action (World env) (Unit {0})
  redis_del ks w = let (r, s) = env.redis.del ks w.redis in (r, record w { redis = s })

  abbrev pub redis_incr : String → Action (World env) ℕ
  redis_incr k w = let (r, s) = env.redis.incr k w.redis in (r, record w { redis = s })

  abbrev pub redis_expire : String → ℕ → Action (World env) (Unit {0})
  redis_expire k ttl w = let (r, s) = env.redis.expire k ttl w.redis in (r, record w { redis = s })

  abbrev pub publish : (exchange key : String) → Message → Action (World env) (Unit {0})
  publish exchange key m w = (
    ok tt,
    record w {
      publisher =
          publish_message env.broker
            (record { exchange = exchange; routing_key = key; message = m }) w.publisher;
    },
  )
