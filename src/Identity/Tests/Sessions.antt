-- ===== src/Identity/Tests/Sessions.antt =====
-- Users, a login with its refresh and an impersonation with its end, of services/identity-service, at
-- concrete inputs.
use saas_chassis.Prelude.{
  String, Bool, true, false, ◌≤◌, ◌≡◌, ◌≢◌, refl, sym, ◌∙◌, inl, inr, none, some, List, [], ◌∷◌,
  map, ok, arith,
}
use saas_chassis.External.Repository.Memory
use saas_chassis.External.Repository.Lookup.{IsUnique}
use saas_chassis.External.Validation.{text_validator, text_validator-IsValidator}
use saas_chassis.TenantManager.State.{MembershipRequest}
use saas_chassis.Identity.Validation.{create_membership_dto}
use saas_chassis.Identity.Validation.Bodies.{membership_body, validate-membership_body}
use saas_chassis.Identity.Entities.{User, JwtPayload, ImpersonationSession}
use saas_chassis.Identity.State.{World}
use saas_chassis.Identity.Duration.{parse_duration_to_seconds}
use saas_chassis.Identity.Users
use saas_chassis.Identity.Users.{CreateUserDto, UpdateUserDto, same_user}
use saas_chassis.Identity.Users.Emails.{
  same_email, Command, creation, change, removal, stamp, HasUniqueEmails, perform_all,
  perform_all-HasUniqueEmails,
}
use saas_chassis.Identity.Auth.{
  TokenResponse, AccessTokenResponse, login, refresh_access_token, parse_expiry, jwt_validate,
}
use saas_chassis.Identity.Auth.Tokens.{same_token}
use saas_chassis.Identity.Auth.Sessions.{refresh_access_token-login}
use saas_chassis.Identity.Tests.{env, world, member, answer, by_admin}
use saas_chassis.Identity.Auth.Delegation.{revoke_impersonation_token, reissue_admin_token}
use saas_chassis.Identity.Impersonation.{end_impersonation, find_active_sessions}
use saas_chassis.Identity.Impersonation.Ending.{
  same_session, jwt_validate-end_impersonation, find_active_sessions-end_impersonation,
}

abbrev alone : World env
alone = record world { users = member ∷ [] }

abbrev logged_in : World env
logged_in = (login env 100 "fresh" member none none alone).1

abbrev given : TokenResponse
given = record { access_token = "u2"; refresh_token = "fresh"; expires_in = 900 }

entered : login env 100 "fresh" member none none alone ≡ (ok given, logged_in)
unfolding login Users.update_last_login parse_duration_to_seconds
entered = refl

in_time : 200 ≤ parse_expiry env 100 "7d"
unfolding parse_duration_to_seconds
in_time = omega arith

one_user : (same : User → User → Bool) → IsUnique same env.users alone.users
one_user same = record {
  at = λ x y hx hy e. elim hx [
    | inl p ↦ elim hy [ inl q ↦ p ∙ sym q | inr n ↦ elim n [ ] ]
    | inr n ↦ elim n [ ]
  ];
}

refresh_access_token-login_example :
    refresh_access_token env 200 "fresh" logged_in ≡ (ok answer, logged_in)
refresh_access_token-login_example =
    refresh_access_token-login env alone logged_in 100 200 "fresh" member none none given
      (Memory.memory-IsTable same_token "t9") (Memory.memory-IsAvailable same_token "t9")
      (Memory.memory-IsTable same_user "u9") (Memory.memory-IsJoined same_user "u9" (λ u. u.id))
      (one_user same_user) (inl refl) refl refl entered in_time

abbrev delegate : JwtPayload
delegate = record by_admin {
  sub = "u2";
  is_platform_admin = false;
  is_impersonating = true;
  real_user_id = some "u1";
}

abbrev open_session : ImpersonationSession
open_session = record {
  id = "s1";
  admin_user_id = "u1";
  target_user_id = "u2";
  target_tenant_id = "t1";
  reason = "support";
  token_hash = "u2";
  expires_at = 9000;
  ended_at = none;
}

abbrev other_session : ImpersonationSession
other_session = record open_session { id = "s2"; target_user_id = "u3" }

abbrev delegated : World env
delegated = record world { sessions = open_session ∷ other_session ∷ [] }

abbrev ended : World env
ended = (end_impersonation env 200 delegate delegated).1

abbrev back : AccessTokenResponse
back = record { access_token = "u1"; expires_in = 900 }

ending : end_impersonation env 200 delegate delegated ≡ (ok back, ended)
unfolding end_impersonation revoke_impersonation_token reissue_admin_token Users.find_by_id
    parse_duration_to_seconds
ending = refl

jwt_validate-end_impersonation_example :
    (jwt_validate env delegate ended).0 ≡ (jwt_validate env delegate delegated).0
jwt_validate-end_impersonation_example =
    jwt_validate-end_impersonation env 200 delegate delegate delegated

listed : find_active_sessions env 300 none ended ≡ (ok (other_session ∷ []), ended)
unfolding end_impersonation revoke_impersonation_token reissue_admin_token Users.find_by_id
    find_active_sessions
listed = refl

find_active_sessions-end_impersonation_example : ◌≢◌ {A = String} "s2" "s1"
find_active_sessions-end_impersonation_example =
    find_active_sessions-end_impersonation env 200 300 delegate none open_session other_session
      (other_session ∷ []) delegated ended ended back (Memory.memory-IsTable same_session "s9") refl
      ending listed (inl refl)

abbrev owner_request : MembershipRequest
owner_request = record {
  url = "http://identity/api/v1/memberships";
  service_token = "s";
  user_id = "u2";
  tenant_id = "t1";
  role = "owner";
}

validate-membership_body_example :
    text_validator.validate create_membership_dto (membership_body text_validator owner_request)
    ≡ false
validate-membership_body_example =
    validate-membership_body text_validator text_validator-IsValidator owner_request

abbrev newcomer : CreateUserDto
newcomer = record {
  email = "ann@x.io";
  password = "Secret12";
  display_name = "Ann";
  phone = none;
  is_platform_admin = none;
  email_verified = none;
}

abbrev renamed : UpdateUserDto
renamed = record {
  display_name = some "Anne";
  phone = none;
  avatar_url = none;
  is_active = none;
  email_verified = none;
}

-- A creation with an email that is taken, one that is not, and changes.
abbrev calls : List Command
calls =
    creation newcomer
    ∷ creation (record newcomer { email = "bob@x.io" })
    ∷ change "u2" renamed
    ∷ stamp 300 "u9"
    ∷ removal "u2"
    ∷ []

two_left : map (λ u. u.email) (perform_all env calls alone).users ≡ ("ann@x.io" ∷ "bob@x.io" ∷ [])
unfolding Users.create Users.update Users.soft_delete Users.update_last_login
two_left = refl

perform_all-HasUniqueEmails_example : HasUniqueEmails env (perform_all env calls alone)
perform_all-HasUniqueEmails_example =
    perform_all-HasUniqueEmails env (Memory.memory-IsTable same_user "u9") calls alone
      (one_user same_email)
