-- ===== src/Identity/Validation.antt =====
-- The DTO classes of services/identity-service/src/modules, whose bodies the global ValidationPipe
-- of main.ts checks.
pub mod Bodies
use saas_chassis.Prelude.{String, List, [], ◌∷◌}
use saas_chassis.External.Validation.{
  Decorator, is_string, is_not_empty, is_optional, is_boolean, is_email, is_uuid, is_url,
  min_length, max_length, matches, PropertyType, text, flag, Property, Dto,
}

-- `@IsUUID() @IsNotEmpty() name!: string`
abbrev pub uuid : String → Property
uuid name = record { name = name; type = text; decorators = is_uuid ∷ is_not_empty ∷ [] }

-- `name: string` or `name: boolean` with its decorators.
abbrev pub string : String → List Decorator → Property
string name decorators = record { name = name; type = text; decorators = decorators }

abbrev pub boolean : String → List Decorator → Property
boolean name decorators = record { name = name; type = flag; decorators = decorators }

abbrev pub password_pattern : String
password_pattern = "^(?=.*[a-z])(?=.*[A-Z])(?=.*\\d)"

abbrev pub login_dto : Dto
login_dto =
    string "email" (is_email ∷ is_not_empty ∷ [])
    ∷ string "password" (is_string ∷ is_not_empty ∷ min_length 8 ∷ [])
    ∷ []

abbrev pub register_dto : Dto
register_dto =
    string "email" (is_email ∷ is_not_empty ∷ max_length 320 ∷ [])
    ∷ string "password" (is_string ∷ is_not_empty ∷ min_length 8 ∷ matches password_pattern ∷ [])
    ∷ string "displayName" (is_string ∷ is_not_empty ∷ min_length 2 ∷ max_length 100 ∷ [])
    ∷ string "phone" (is_string ∷ is_optional ∷ max_length 20 ∷ [])
    ∷ []

abbrev pub create_user_dto : Dto
create_user_dto =
    string "email" (is_email ∷ is_not_empty ∷ max_length 320 ∷ [])
    ∷ string "password" (is_string ∷ is_not_empty ∷ min_length 8 ∷ matches password_pattern ∷ [])
    ∷ string "displayName" (is_string ∷ is_not_empty ∷ min_length 2 ∷ max_length 100 ∷ [])
    ∷ string "phone" (is_string ∷ is_optional ∷ max_length 20 ∷ [])
    ∷ []

abbrev pub update_user_dto : Dto
update_user_dto =
    string "displayName" (is_string ∷ is_optional ∷ min_length 2 ∷ max_length 100 ∷ [])
    ∷ string "phone" (is_string ∷ is_optional ∷ max_length 20 ∷ [])
    ∷ string "avatarUrl" (is_url ∷ is_optional ∷ max_length 500 ∷ [])
    ∷ boolean "isActive" (is_boolean ∷ is_optional ∷ [])
    ∷ boolean "emailVerified" (is_boolean ∷ is_optional ∷ [])
    ∷ []

abbrev pub refresh_token_dto : Dto
refresh_token_dto = string "refreshToken" (is_string ∷ is_not_empty ∷ []) ∷ []

abbrev pub switch_tenant_dto : Dto
switch_tenant_dto = uuid "tenantId" ∷ []

abbrev pub impersonate_dto : Dto
impersonate_dto =
    uuid "targetUserId"
    ∷ uuid "targetTenantId"
    ∷ string "reason" (is_string ∷ is_not_empty ∷ min_length 10 ∷ [])
    ∷ []

abbrev pub create_membership_dto : Dto
create_membership_dto =
    uuid "userId"
    ∷ uuid "tenantId"
    ∷ uuid "roleId"
    ∷ string "status" (is_string ∷ is_optional ∷ [])
    ∷ []

abbrev pub assign_role_dto : Dto
assign_role_dto = uuid "userId" ∷ uuid "tenantId" ∷ uuid "roleId" ∷ []
