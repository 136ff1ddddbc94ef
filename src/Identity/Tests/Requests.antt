-- ===== src/Identity/Tests/Requests.antt =====
-- The handlers of services/identity-service at concrete requests.
use saas_chassis.Prelude.{◌≡◌, ◌⊎◌, ◌↔◌, refl, true, false, none, some, [], ◌∷◌, ok, any, includes}
use saas_chassis.External.Repository.Memory
use saas_chassis.Http.{ok_message}
use saas_chassis.Identity.Entities.{Role, Membership, MembershipStatus, JwtPayload}
use saas_chassis.Identity.State.{World}
use saas_chassis.Identity.Users.{UpdateUserDto, same_user}
use saas_chassis.Identity.Roles
use saas_chassis.Identity.Memberships
use saas_chassis.Identity.Memberships.{of_user_and_tenant}
use saas_chassis.Identity.Memberships.Removal.{same_membership}
use saas_chassis.Sdk.Guards.{roles_guard}
use saas_chassis.Identity.Api.{AssignRoleDto, assign_role}
use saas_chassis.Identity.Api.Assignment.{assign_role-ok}
use saas_chassis.Identity.Api.Profiles.{update_request, respond, respond-others}
use saas_chassis.Identity.Tests.{env, world, admin}

abbrev tenant_admin : JwtPayload
tenant_admin = record {
  sub = "u2";
  email = "u@x.io";
  display_name = "U";
  is_platform_admin = false;
  tenant_id = some "t1";
  tenant_slug = none;
  roles = "tenant_admin" ∷ [];
  permissions = [];
  is_impersonating = false;
  real_user_id = none;
}

abbrev viewer : Role
viewer = record {
  id = "r2";
  tenant_id = none;
  name = "viewer";
  display_name = "Viewer";
  description = none;
  is_system_role = true;
  permissions = [];
}

abbrev owned : Membership
owned = record {
  user_id = "u3";
  tenant_id = "t1";
  role_id = "r1";
  status = MembershipStatus.active;
  invited_by = none;
  invited_at = none;
  joined_at = none;
}

abbrev staffed : World env
staffed = record world { roles = viewer ∷ []; memberships = owned ∷ [] }

abbrev demotion : AssignRoleDto
demotion = record { user_id = "u3"; tenant_id = "t1"; role_id = "r2" }

abbrev demoted : Membership
demoted = record owned { role_id = "r2"; joined_at = some 700 }

abbrev reassigned : World env
reassigned = (assign_role env 700 demotion tenant_admin staffed).1

assigned :
    assign_role env 700 demotion tenant_admin staffed
    ≡ (ok (ok_message demoted "Role assigned successfully"), reassigned)
unfolding assign_role roles_guard Memberships.create Memberships.remove Roles.find_by_id
assigned = refl

looked_up :
    env.memberships.find_one (of_user_and_tenant "u3" "t1") reassigned.memberships
    ≡ ok (some demoted)
unfolding assign_role roles_guard Memberships.create Memberships.remove Roles.find_by_id
looked_up = refl

assign_role-ok_example :
    ((tenant_admin.is_platform_admin ≡ true)
      ⊎ (any (includes tenant_admin.roles) ("tenant_admin" ∷ "platform_admin" ∷ []) ≡ true))
    × ((m : Membership) × (some demoted ≡ some m)
        × (some demoted ≡ some m)
        × (m.role_id ≡ demotion.role_id)
        × (m.status ≡ MembershipStatus.active)
        × (of_user_and_tenant "u3" "t1" m ≡ true))
assign_role-ok_example =
    assign_role-ok env (Memory.memory-IsTable same_membership "m9") 700 demotion tenant_admin
      (ok_message demoted "Role assigned successfully") staffed reassigned (some demoted) assigned
      looked_up

abbrev deactivation : UpdateUserDto
deactivation = record {
  display_name = none;
  phone = none;
  avatar_url = none;
  is_active = some false;
  email_verified = none;
}

respond-others_example :
    env.users.Has (respond env (update_request "u1" deactivation) tenant_admin world).users admin
    ↔ env.users.Has world.users admin
respond-others_example =
    respond-others env (Memory.memory-IsTable same_user "u9") tenant_admin refl refl refl
      (update_request "u1" deactivation) world admin refl
