-- ===== src/Identity/Tests/Tenancies.antt =====
-- services/identity-service at concrete inputs: switching tenants, durations and memberships.
use saas_chassis.Prelude.{List, ◌∙◌, sym, inl, inr, ◌≡◌, refl, true, false, none, some, [], ◌∷◌, ok}
use saas_chassis.External.Repository.Memory
use saas_chassis.Identity.Entities.{User, Role, Membership, MembershipStatus, JwtPayload}
use saas_chassis.Identity.State.{World}
use saas_chassis.Identity.Duration.{parse_duration_to_seconds}
use saas_chassis.Identity.Duration.Values.{parse_duration_to_seconds-append}
use saas_chassis.Identity.Memberships
use saas_chassis.Identity.Memberships.{CreateMembershipDto, of_user_and_tenant, restored}
use saas_chassis.Identity.Memberships.Removal.{same_membership}
use saas_chassis.Identity.Memberships.Invitations.{
  Command, creation, removal, AllContinue, perform_all, perform_all-AllContinue,
}
use saas_chassis.External.Repository.Lookup.{IsUnique}
use saas_chassis.Identity.Roles
use saas_chassis.Identity.Auth.{switch_tenant, build_jwt_payload}
use saas_chassis.Identity.Auth.Switching.{Grants, switch_tenant-ok}
use saas_chassis.Prelude.{digits_value, ◌++◌, ◌*◌, ◌⊎◌}
use saas_chassis.Identity.Users
use saas_chassis.Identity.Users.{has_id}
use saas_chassis.Identity.Tests.{env, world, answer}

parse_duration_to_seconds-append_example :
    (parse_duration_to_seconds (b'9' ∷ (b'0' ∷ []) ++ b's' ∷ [])
      ≡ digits_value 0 (b'9' ∷ b'0' ∷ []))
    × (parse_duration_to_seconds (b'9' ∷ (b'0' ∷ []) ++ b'm' ∷ [])
        ≡ digits_value 0 (b'9' ∷ b'0' ∷ []) * 60)
    × (parse_duration_to_seconds (b'9' ∷ (b'0' ∷ []) ++ b'h' ∷ [])
        ≡ digits_value 0 (b'9' ∷ b'0' ∷ []) * 3600)
    × (parse_duration_to_seconds (b'9' ∷ (b'0' ∷ []) ++ b'd' ∷ [])
        ≡ digits_value 0 (b'9' ∷ b'0' ∷ []) * 86400)
parse_duration_to_seconds-append_example =
    parse_duration_to_seconds-append b'9' (b'0' ∷ []) (refl, (refl, tt))

abbrev office : Membership
office = record {
  user_id = "u2";
  tenant_id = "t1";
  role_id = "r1";
  status = MembershipStatus.active;
  invited_by = none;
  invited_at = none;
  joined_at = none;
}

abbrev employed : World env
employed = record world { memberships = office ∷ [] }

switched : switch_tenant env "u2" "t1" employed ≡ (ok answer, employed)
unfolding switch_tenant Users.find_by_id parse_duration_to_seconds build_jwt_payload
switched = refl

switch_tenant-ok_example :
    (employed ≡ employed)
    × ((user : User) × (env.users.find_one (has_id "u2") employed.users ≡ ok (some user))
        × ((payload : JwtPayload) × ("u2" ≡ env.sign payload "15m")
            × (payload.sub ≡ user.id)
            × (payload.email ≡ user.email)
            × (payload.is_platform_admin ≡ user.is_platform_admin)
            × (payload.is_impersonating ≡ false)
            × (payload.real_user_id ≡ none)
            × (((m : Membership) × env.memberships.Has employed.memberships m
                  × (m.user_id ≡ "u2")
                  × (m.tenant_id ≡ "t1")
                  × (payload.tenant_id ≡ some "t1")
                  × Grants (env.join_role m.role_id employed.roles) payload)
                ⊎ ((user.is_platform_admin ≡ true)
                    × (payload.tenant_id ≡ none)
                    × Grants none payload))))
switch_tenant-ok_example =
    switch_tenant-ok env same_membership (Memory.memory-IsTable same_membership "m9") "u2" "t1"
      employed employed answer switched

abbrev hire : CreateMembershipDto
hire = record { user_id = "u2"; tenant_id = "t1"; role_id = "r1"; status = none }

abbrev clerk : Role
clerk = record {
  id = "r1";
  tenant_id = none;
  name = "clerk";
  display_name = "Clerk";
  description = none;
  is_system_role = true;
  permissions = [];
}

abbrev staffed : World env
staffed = record employed { roles = clerk ∷ [] }

abbrev dismissed : World env
dismissed = (Memberships.remove env "u2" "t1" staffed).1

abbrev rehired : World env
rehired = (Memberships.create env 900 hire dismissed).1

abbrev again : Membership
again = record office { joined_at = some 900 }

dismissal : Memberships.remove env "u2" "t1" staffed ≡ (ok tt, dismissed)
unfolding Memberships.remove
dismissal = refl

rehiring : Memberships.create env 900 hire dismissed ≡ (ok again, rehired)
unfolding Memberships.remove Memberships.create Roles.find_by_id
rehiring = refl

abbrev turnover : List Command
turnover = removal "u2" "t1" ∷ removal "u3" "t1" ∷ creation 900 hire ∷ creation 901 hire ∷ []

one_membership : IsUnique same_membership env.memberships staffed.memberships
one_membership = record {
  at = λ x y hx hy e. elim hx [
    | inl p ↦ elim hy [ inl q ↦ p ∙ sym q | inr n ↦ elim n [ ] ]
    | inr n ↦ elim n [ ]
  ];
}

perform_all-AllContinue_example :
    AllContinue env staffed.memberships (perform_all env turnover staffed).memberships
perform_all-AllContinue_example =
    perform_all-AllContinue env (Memory.memory-IsTable same_membership "m9") turnover staffed
      one_membership
