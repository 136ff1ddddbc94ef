-- ===== src/Identity/Api/Profiles.antt =====
-- services/identity-service/src/modules/users/users.controller.ts: whom a user without permissions
-- can change.
use saas_chassis.Prelude.{
  ◌≡◌, ap, sym, ◌↔◌, inl, inr, String, false, none, some, arith, ◌==◌, eq_iff, includes,
  Result-cases, Bool-cases,
}
use saas_chassis.External.Repository.{IsTable}
use saas_chassis.External.Repository.Lookup.{save-others}
use saas_chassis.Identity.Entities.{User, JwtPayload}
use saas_chassis.Identity.State.{Env, World}
use saas_chassis.Identity.Users
use saas_chassis.Identity.Users.{UpdateUserDto, same_user, has_id, updated}
use saas_chassis.Sdk.Guards.{permissions_guard}
use saas_chassis.Identity.Api.{
  CreateUserBody, list_users, get_user, create_user, update_user, remove_user,
}

-- A request of users.controller.ts.
pub data UsersRequest : Type 0 where
  list_request : UsersRequest
  get_request : (id : String) → UsersRequest
  create_request : CreateUserBody → UsersRequest
  update_request : (id : String) → UpdateUserDto → UsersRequest
  remove_request : (id : String) → UsersRequest

module _ (env : Env) where
  -- The state after a request of an authenticated user, whether its handler returned or threw.
  abbrev pub respond : UsersRequest → JwtPayload → World env → World env
  respond list_request user w = (list_users env user w).1
  respond (get_request id) user w = (get_user env id user w).1
  respond (create_request body) user w = (create_user env body user w).1
  respond (update_request id dto) user w = (update_user env id dto user w).1
  respond (remove_request id) user w = (remove_user env id user w).1

module _ (env : Env) (t : IsTable same_user env.users) (user : JwtPayload)
    (plain : user.is_platform_admin ≡ false)
    (no_write : includes user.permissions "users:write" ≡ false)
    (no_delete : includes user.permissions "users:delete" ≡ false) where
  unchanged :
      (request : UsersRequest) (w : World env) (y : User)
      → (respond env request user w).users ≡ w.users
      → env.users.Has (respond env request user w).users y ↔ env.users.Has w.users y
  unchanged request w y e = rw e (λ h. h, λ h. h)

  -- A request to the users of one who is no platform administrator and has neither users:write nor
  -- users:delete, whatever it is and whether it returns or throws, changes no user but that one.
  pub respond-others :
      (request : UsersRequest) (w : World env) (y : User)
      → (y.id == user.sub) ≡ false
      → env.users.Has (respond env request user w).users y ↔ env.users.Has w.users y
  unfolding list_users get_user create_user update_user remove_user permissions_guard Users.find_all
      Users.find_by_id Users.update
  respond-others list_request w y other = unchanged list_request w y (ground arith)
  respond-others (get_request id) w y other = unchanged (get_request id) w y (ground arith)
  respond-others (create_request body) w y other =
      unchanged (create_request body) w y (ground arith)
  respond-others (remove_request id) w y other = unchanged (remove_request id) w y (ground arith)
  respond-others (update_request id dto) w y other = elim (Bool-cases (user.sub == id)) [
    | inr stranger ↦ unchanged (update_request id dto) w y (ground arith)
    | inl self ↦ elim (Result-cases (env.users.find_one (has_id id) w.users)) [
      | inr (e, q) ↦ unchanged (update_request id dto) w y (ground arith)
      | inl (none, q) ↦ unchanged (update_request id dto) w y (ground arith)
      | inl (some x, q) ↦
          let (_, key) = t.find_one_some (has_id id) w.users x q in
          let saved : (respond env (update_request id dto) user w).users
              ≡ (env.users.save (updated dto x) w.users).1 =
            ground arith in
          rw saved (
            save-others t w.users y (updated dto x)
              (ground
                (arith, eq_iff x.id id, eq_iff user.sub id, eq_iff x.id y.id, eq_iff y.id user.sub))
              (λ e. (eq_iff x.id y.id).1 (sym (ap (λ (u : User). u.id) e))))
    ]
  ]
