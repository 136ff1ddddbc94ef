-- ===== src/Identity/Tests/Interleaved.antt =====
-- The concurrent log-ins of services/identity-service at concrete calls.
use saas_chassis.Prelude.{
  Option, String, true, template, ◌==◌, ◌≡◌, ◌≢◌, refl, some, [], ◌∷◌, ok, arith,
}
use saas_chassis.External.Redis.Memory as RedisMemory
use saas_chassis.Identity.State.{Env, World}
use saas_chassis.Identity.Auth.Credentials.{is_blocked, validate_credentials, local_validate}
use saas_chassis.Identity.Auth.Interleaving.{arrived, advance, interleave}
use saas_chassis.Identity.Auth.Interleaving.Counting.{interleave-blocked}
use saas_chassis.Identity.Auth.Passwords.{IsOpen, local_validate-ok}
use saas_chassis.Identity.Tests.{env, world, member}

abbrev strict : Env
strict = record env { login_max_attempts = some 2 }

abbrev quiet : World strict
quiet = record {
  users = world.users;
  roles = world.roles;
  permissions = world.permissions;
  memberships = world.memberships;
  tokens = world.tokens;
  sessions = world.sessions;
  redis = [];
  publisher = world.publisher;
}

-- Two calls that have both passed the test of the lock before either counts.
abbrev both : World strict
both =
    (interleave strict "ann@x.io" (0 ∷ 1 ∷ 0 ∷ 1 ∷ 1 ∷ 0 ∷ [])
      (arrived "wrong" ∷ arrived "bad" ∷ []) quiet).1

interleave-blocked_example :
    validate_credentials strict "ann@x.io" "secret" both ≢ (ok (some member), both)
unfolding interleave advance is_blocked
interleave-blocked_example =
    interleave-blocked strict RedisMemory.memory-IsRedis "ann@x.io" ("wrong" ∷ "bad" ∷ [])
      (0 ∷ 1 ∷ 0 ∷ 1 ∷ 1 ∷ 0 ∷ []) "secret" quiet both (some member) (omega arith) refl refl
      (omega arith)

local_check : local_validate strict "ann@x.io" "secret" quiet ≡ (ok member, quiet)
unfolding local_validate is_blocked
local_check = refl

local_validate-ok_example :
    (key : String) × (counter : Option String) × (key
      ≡ template ("login_attempts:" ∷ strict.to_lower_case "ann@x.io" ∷ []))
    × (strict.redis.get key quiet.redis ≡ ok counter)
    × IsOpen 2 counter
    × (strict.users.find_one (λ u. u.email == strict.to_lower_case "ann@x.io") quiet.users
        ≡ ok (some member))
    × (member.is_active ≡ true)
    × (strict.compare_password "secret" member.password_hash ≡ true)
    × (strict.redis.del (key ∷ []) quiet.redis ≡ (ok tt, quiet.redis))
    × (quiet ≡ record quiet { redis = quiet.redis })
local_validate-ok_example =
    local_validate-ok strict "ann@x.io" "secret" quiet quiet member local_check
