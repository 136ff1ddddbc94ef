-- ===== src/Identity/Users.antt =====
-- services/identity-service/src/modules/users/users.service.ts
pub mod Emails
use saas_chassis.Prelude.{
  ℕ, String, Bool, true, false, Option, none, some, List, [], ◌∷◌, map, ok, Action, pure, throw,
  ◌>>=◌, ◌>>◌, ◌==◌, required, not_found, conflict, template, or_else, truthy,
}
use saas_chassis.Identity.Entities.{User, Membership}
use saas_chassis.Identity.State.{
  Env, World, find_one_user, find_users, new_user_id, save_user, update_users, find_memberships,
}

pub record CreateUserDto : Type 0 where
  pub email : String
  pub password : String
  pub display_name : String
  pub phone : Option String
  pub is_platform_admin : Option Bool
  pub email_verified : Option Bool

-- `none` is a field that the body has not; `some none` is null, in the fields that `update` takes null
-- for. A null in another field, which the database refuses, is left out.
pub record UpdateUserDto : Type 0 where
  pub display_name : Option String
  pub phone : Option (Option String)
  pub avatar_url : Option (Option String)
  pub is_active : Option Bool
  pub email_verified : Option Bool

-- The primary key of the table users.
abbrev pub same_user : User → User → Bool
same_user x y = x.id == y.id

abbrev pub has_id : String → User → Bool
has_id id u = u.id == id

-- `memberships.map((m) => m.user).filter(Boolean)`
abbrev pub present : List (Option User) → List User
present [] = []
present (none ∷ us) = present us
present (some u ∷ us) = u ∷ present us

-- `if (dto.field !== undefined) user.field = dto.field ?? null`
abbrev pub assign_text : Option (Option String) → Option String → Option String
assign_text none old = old
assign_text (some new) old = new

abbrev pub updated : UpdateUserDto → User → User
updated dto u = record u {
  display_name = or_else dto.display_name u.display_name;
  phone = assign_text dto.phone u.phone;
  avatar_url = assign_text dto.avatar_url u.avatar_url;
  is_active = or_else dto.is_active u.is_active;
  email_verified = or_else dto.email_verified u.email_verified;
}

module _ (env : Env) where
  members : List Membership → Action (World env) (List User)
  members ms w = (ok (present (map (λ m. env.join_user m.user_id w.users) ms)), w)

  -- `if (!tenantId) return []`
  find_members : Option String → Action (World env) (List User)
  unfolding members
  find_members none = pure []
  find_members (some tenant_id) = elim (truthy (some tenant_id)) [
    | false ↦ pure []
    | true ↦ find_memberships env (λ m. m.tenant_id == tenant_id) >>= members
  ]

  unfoldable pub find_all :
      (is_platform_admin : Bool) → (tenant_id : Option String) → Action (World env) (List User)
  unfolding find_members
  find_all true tenant_id = find_users env (λ _. true)
  find_all false tenant_id = find_members tenant_id

  unfoldable pub find_by_id : String → Action (World env) User
  find_by_id id = do
    user ← find_one_user env (has_id id)
    required user (not_found (template ("User with ID " ∷ id ∷ " not found" ∷ [])))

  abbrev pub has_email : String → User → Bool
  has_email email u = u.email == env.to_lower_case email

  abbrev pub find_by_email : String → Action (World env) (Option User)
  find_by_email email = find_one_user env (has_email email)

  abbrev pub new_user : CreateUserDto → (id : String) → User
  new_user dto id = record {
    id = id;
    email = env.to_lower_case dto.email;
    email_verified = or_else dto.email_verified false;
    password_hash = env.hash_password dto.password;
    display_name = dto.display_name;
    avatar_url = none;
    phone = dto.phone;
    is_platform_admin = or_else dto.is_platform_admin false;
    is_active = true;
    last_login_at = none;
  }

  create_new : CreateUserDto → Option User → Action (World env) User
  create_new dto (some existing) =
      throw (conflict (template ("A user with email " ∷ dto.email ∷ " already exists" ∷ [])))
  create_new dto none = do
    id ← new_user_id env
    save_user env (new_user dto id)
    pure (new_user dto id)

  unfoldable pub create : CreateUserDto → Action (World env) User
  unfolding create_new
  create dto = do existing ← find_by_email dto.email; create_new dto existing

  unfoldable pub update : String → UpdateUserDto → Action (World env) User
  unfolding find_by_id
  update id dto = do user ← find_by_id id; save_user env (updated dto user); pure (updated dto user)

  unfoldable pub soft_delete : String → Action (World env) (Unit {0})
  unfolding find_by_id
  soft_delete id = do user ← find_by_id id; save_user env (record user { is_active = false })

  unfoldable pub update_last_login : (now : ℕ) → String → Action (World env) (Unit {0})
  update_last_login now id =
      update_users env (has_id id) (λ u. record u { last_login_at = some now })
