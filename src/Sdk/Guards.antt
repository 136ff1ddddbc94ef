-- ===== src/Sdk/Guards.antt =====
-- The guards: packages/chassis-sdk/src/guards read the headers that the gateway forwards,
-- services/identity-service/src/common/guards the payload of the token.
pub mod Forwarding
use Prim.Native.Char.{Char, code}
use Prim.Native.String
use saas_chassis.Prelude.{
  ℕ, String, Bool, true, false, not, ◌&&◌, ◌||◌, Option, none, some, List, [], ◌∷◌, ◌==◌, Result,
  ok, err, unauthorized, forbidden, template, or_else, truthy, same_text, nat_eq, any, all,
  includes, if◌then◌else◌, is_some,
}
use saas_chassis.Identity.Entities.{JwtPayload}

-- `request.headers[…]` as the guards read them.
pub record Headers : Type 0 where
  pub user_id : Option String
  pub is_platform_admin : Option String
  pub roles : Option String
  pub permissions : Option String

abbrev pub on_head : Char → List String → List String
on_head c [] = String.◌∷◌ c String.[] ∷ []
on_head c (s ∷ ss) = String.◌∷◌ c s ∷ ss

-- `text.split(',')`
unfoldable pub split : String → List String
split String.[] = "" ∷ []
split (String.◌∷◌ c s) = if nat_eq (code c) b',' then "" ∷ split s else on_head c (split s)

-- `header?.split(',') || []`
abbrev pub split_header : Option String → List String
split_header none = []
split_header (some s) = split s

abbrev pub says_true : Option String → Bool
says_true h = same_text h (some "true")

-- `JwtAuthGuard` of the SDK.
pub jwt_auth : (is_public : Bool) → Headers → Result Bool
jwt_auth is_public h =
    if is_public
    then ok true
    else if truthy h.user_id
    then ok true
    else err (unauthorized "Missing gateway identity headers")

-- `RolesGuard` of the SDK; `none` where the route asks for no role.
pub sdk_roles : Option (List String) → Headers → Result Bool
sdk_roles none h = ok true
sdk_roles (some required) h =
    if says_true h.is_platform_admin
    then ok true
    else ok (any (includes (split_header h.roles)) required)

-- `PermissionsGuard` of the SDK.
pub sdk_permissions : Option String → Headers → Result Bool
sdk_permissions required h =
    if not (truthy required) || says_true h.is_platform_admin
    then ok true
    else if includes (split_header h.permissions) (or_else required "")
    then ok true
    else err (forbidden (template ("Required permission: " ∷ or_else required "" ∷ [])))

abbrev pub join : List String → String
join [] = ""
join (s ∷ []) = s
join (s ∷ t ∷ ss) = String.◌++◌ s (String.◌++◌ "," (join (t ∷ ss)))

-- `xs.join(', ')`
abbrev pub join_list : List String → String
join_list [] = ""
join_list (s ∷ []) = s
join_list (s ∷ t ∷ ss) = String.◌++◌ s (String.◌++◌ ", " (join_list (t ∷ ss)))

-- `RolesGuard` and `PermissionsGuard` of the identity service; the decorator may be absent.
unfoldable pub roles_guard : Option (List String) → Option JwtPayload → Result Bool
roles_guard none user = ok true
roles_guard (some []) user = ok true
roles_guard (some (r ∷ rs)) none = err (forbidden "No authenticated user found")
roles_guard (some (r ∷ rs)) (some user) =
    if user.is_platform_admin
    then ok true
    else if any (includes user.roles) (r ∷ rs)
    then ok true
    else err (forbidden (template ("Requires one of these roles: " ∷ join_list (r ∷ rs) ∷ [])))

unfoldable pub permissions_guard : Option (List String) → Option JwtPayload → Result Bool
permissions_guard none user = ok true
permissions_guard (some []) user = ok true
permissions_guard (some (p ∷ ps)) none = err (forbidden "No authenticated user found")
permissions_guard (some (p ∷ ps)) (some user) =
    if user.is_platform_admin
    then ok true
    else if all (includes user.permissions) (p ∷ ps)
    then ok true
    else err (forbidden (template ("Missing required permissions: " ∷ join_list (p ∷ ps) ∷ [])))
