-- ===== src/Identity/Tests.antt =====
-- services/identity-service at concrete inputs, over tables and a Redis in memory.
mod Sessions
mod Tenancies
mod Interleaved
mod Requests
use saas_chassis.Prelude.{
  ◌≤◌, ◌≡◌, ◌≢◌, refl, true, false, Option, none, some, [], ◌∷◌, ok, arith, ◌==◌, find_first,
}
use saas_chassis.External.Repository.Memory
use saas_chassis.External.Redis.Memory as RedisMemory
use saas_chassis.External.Broker.{memory_broker}
use saas_chassis.Identity.Entities.{
  User, Role, Membership, MembershipStatus, RefreshToken, JwtPayload,
}
use saas_chassis.Identity.State.{Env, World}
use saas_chassis.Identity.Duration.{parse_duration_to_seconds}
use saas_chassis.Identity.Duration.Values.{parse_duration_to_seconds-append}
use saas_chassis.Identity.Memberships
use saas_chassis.Identity.Memberships.{CreateMembershipDto, of_user_and_tenant, restored}
use saas_chassis.Identity.Memberships.Removal.{same_membership, create-remove}
use saas_chassis.Identity.Roles
use saas_chassis.Identity.Auth.{payload_for, switch_tenant, build_jwt_payload}
use saas_chassis.Identity.Auth.Switching.{switch_tenant-ok}
use saas_chassis.Prelude.{digits_value, ◌++◌, ◌*◌, ◌⊎◌}
use saas_chassis.Identity.Users
use saas_chassis.Identity.Users.{has_id}
use saas_chassis.Identity.Auth.{AccessTokenResponse, logout, refresh_access_token}
use saas_chassis.Identity.Auth.Credentials.{validate_credentials}
use saas_chassis.Identity.Auth.Delegation.{impersonation_payload, issue_impersonation_token}
use saas_chassis.Identity.Auth.Tokens.{
  same_token, refresh_access_token-logout, refresh_access_token-ok,
}
use saas_chassis.Identity.Auth.Lockout.{start, fail, validate_credentials-Failures}
use saas_chassis.Identity.Impersonation.{ImpersonateDto, Started, start_impersonation}
use saas_chassis.Identity.Impersonation.Authority.{IsImpersonation, start_impersonation-ok}

abbrev pub env : Env
env = record {
  users = Memory.memory (λ x y. x.id == y.id) "u9";
  roles = Memory.memory (λ x y. x.id == y.id) "r9";
  permissions = Memory.memory (λ x y. x.id == y.id) "q9";
  memberships = Memory.memory same_membership "m9";
  tokens = Memory.memory same_token "t9";
  sessions = Memory.memory (λ x y. x.id == y.id) "s9";
  redis = RedisMemory.memory;
  broker = memory_broker;
  join_role = λ id s. find_first (λ r. r.id == id) s;
  join_user = λ id s. find_first (λ u. u.id == id) s;
  last_session = λ p s. ok (find_first p s);
  hash_password = λ p. p;
  compare_password = λ p h. p == h;
  sha256 = λ t. t;
  sign = λ p expiry. p.sub;
  to_lower_case = λ s. s;
  login_max_attempts = some 1;
  login_block_duration_seconds = none;
  jwt_expiry = none;
  refresh_expiry = none;
  impersonation_expiry = none;
}

abbrev pub admin : User
admin = record {
  id = "u1";
  email = "root@x.io";
  email_verified = true;
  password_hash = "secret";
  display_name = "Root";
  avatar_url = none;
  phone = none;
  is_platform_admin = true;
  is_active = true;
  last_login_at = none;
}

abbrev member : User
member = record admin { id = "u2"; email = "ann@x.io"; is_platform_admin = false }

abbrev token : RefreshToken
token = record {
  user_id = "u2";
  token_hash = "abc";
  device_info = none;
  ip_address = none;
  expires_at = 5000;
  revoked_at = none;
}

abbrev pub world : World env
world = record {
  users = admin ∷ member ∷ [];
  roles = [];
  permissions = [];
  memberships = [];
  tokens = token ∷ [];
  sessions = [];
  redis = [];
  publisher = some [];
}

abbrev logged_out : World env
logged_out = (logout env 100 "abc" world).1

out : logout env 100 "abc" world ≡ (ok tt, logged_out)
unfolding logout
out = refl

abbrev pub answer : AccessTokenResponse
answer = record { access_token = "u2"; expires_in = 900 }

refresh_access_token-logout_example :
    refresh_access_token env 200 "abc" logged_out ≢ (ok answer, logged_out)
refresh_access_token-logout_example =
    refresh_access_token-logout env world logged_out logged_out 100 200 "abc" answer
      (Memory.memory-IsTable same_token "t9") out

refreshed : refresh_access_token env 200 "abc" world ≡ (ok answer, world)
unfolding refresh_access_token parse_duration_to_seconds
refreshed = refl

refresh_access_token-ok_example :
    (world ≡ world)
    × ((stored : RefreshToken) × (u : User) × (env.tokens.Has world.tokens stored)
        × (stored.token_hash ≡ "abc")
        × (200 ≤ stored.expires_at)
        × (stored.revoked_at ≡ none)
        × (env.join_user stored.user_id world.users ≡ some u)
        × (u.is_active ≡ true))
refresh_access_token-ok_example =
    refresh_access_token-ok env world world 200 "abc" answer (Memory.memory-IsTable same_token "t9")
      refreshed

abbrev failed_once : World env
failed_once = (validate_credentials env "ann@x.io" "wrong" world).1

wrong : validate_credentials env "ann@x.io" "wrong" world ≡ (ok none, failed_once)
unfolding validate_credentials
wrong = refl

validate_credentials-Failures_example :
    validate_credentials env "ann@x.io" "secret" failed_once ≢ (ok (some member), failed_once)
validate_credentials-Failures_example =
    validate_credentials-Failures env RedisMemory.memory-IsRedis "ann@x.io" "secret" 1 world
      failed_once failed_once (some member) (omega arith) refl
      (fail 0 "wrong" world world failed_once (start world) wrong) (omega arith)

abbrev by_admin : JwtPayload
by_admin = record {
  sub = "u1";
  email = "root@x.io";
  display_name = "Root";
  is_platform_admin = true;
  tenant_id = none;
  tenant_slug = none;
  roles = [];
  permissions = [];
  is_impersonating = false;
  real_user_id = none;
}

abbrev dto : ImpersonateDto
dto = record { target_user_id = "u2"; target_tenant_id = "t1"; reason = "support" }

abbrev started : World env
started = (start_impersonation env 100 by_admin dto world).1

abbrev session : Started
session = record { access_token = "u2"; session_id = "s9" }

begun : start_impersonation env 100 by_admin dto world ≡ (ok session, started)
unfolding start_impersonation Users.find_by_id issue_impersonation_token
begun = refl

start_impersonation-ok_example :
    (by_admin.is_platform_admin ≡ true)
    × ((a : User) × (target : User) × (payload : JwtPayload) × (env.users.find_one
            (has_id "u1")
            world.users
          ≡ ok (some a))
        × (env.users.find_one (has_id "u2") world.users ≡ ok (some target))
        × (target.is_active ≡ true)
        × (target.is_platform_admin ≡ false)
        × IsImpersonation a target "t1" payload
        × ("u2" ≡ env.sign payload "30m"))
start_impersonation-ok_example =
    start_impersonation-ok env 100 by_admin dto world started session begun
