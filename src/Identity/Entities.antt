-- ===== src/Identity/Entities.antt =====
-- The entities of services/identity-service, the payload of its tokens and its events. A date is
-- its number of milliseconds.
use saas_chassis.Prelude.{ℕ, String, Bool, true, false, not, ◌&&◌, Option, none, some, List, ltb}

pub record User : Type 0 where
  pub id : String
  pub email : String
  pub email_verified : Bool
  pub password_hash : String
  pub display_name : String
  pub avatar_url : Option String
  pub phone : Option String
  pub is_platform_admin : Bool
  pub is_active : Bool
  pub last_login_at : Option ℕ

pub record Permission : Type 0 where
  pub id : String
  pub resource : String
  pub action : String
  pub description : Option String

pub record Role : Type 0 where
  pub id : String
  pub tenant_id : Option String
  pub name : String
  pub display_name : String
  pub description : Option String
  pub is_system_role : Bool
  pub permissions : List Permission

pub data MembershipStatus : Type 0 where
  active invited suspended removed : MembershipStatus

-- `role` is a relation: a query that asks for it joins the row of the role.
pub record Membership : Type 0 where
  pub user_id : String
  pub tenant_id : String
  pub role_id : String
  pub status : MembershipStatus
  pub invited_by : Option String
  pub invited_at : Option ℕ
  pub joined_at : Option ℕ

pub record RefreshToken : Type 0 where
  pub user_id : String
  pub token_hash : String
  pub device_info : Option String
  pub ip_address : Option String
  pub expires_at : ℕ
  pub revoked_at : Option ℕ

abbrev pub is_expired : (now : ℕ) → RefreshToken → Bool
is_expired now t = ltb t.expires_at now

abbrev pub is_revoked : RefreshToken → Bool
is_revoked t = elim t.revoked_at [ none ↦ false | some _ ↦ true ]

abbrev pub is_valid : (now : ℕ) → RefreshToken → Bool
is_valid now t = not (is_expired now t) && not (is_revoked t)

pub record ImpersonationSession : Type 0 where
  pub id : String
  pub admin_user_id : String
  pub target_user_id : String
  pub target_tenant_id : String
  pub reason : String
  pub token_hash : String
  pub expires_at : ℕ
  pub ended_at : Option ℕ

pub record JwtPayload : Type 0 where
  pub sub : String
  pub email : String
  pub display_name : String
  pub is_platform_admin : Bool
  pub tenant_id : Option String
  pub tenant_slug : Option String
  pub roles : List String
  pub permissions : List String
  pub is_impersonating : Bool
  pub real_user_id : Option String

pub data Message : Type 0 where
  user_login : (user_id email : String) → (ip_address : Option String) → Message
  user_added : (tenant_id user_id role : String) → Message
  user_impersonate : (user_id target_user_id target_tenant_id reason session_id : String) → Message
