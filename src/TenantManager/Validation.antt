-- ===== src/TenantManager/Validation.antt =====
-- The DTO classes of services/tenant-manager/src/modules, whose bodies the global ValidationPipe of
-- main.ts checks.
use saas_chassis.Prelude.{
  ◌≡◌, refl, inl, inr, String, Bool, true, Option, none, List, [], ◌∷◌, arith, all, ◌==◌, eq_iff,
  Bool-cases,
}
use saas_chassis.External.Validation.{
  Decorator, is_string, is_not_empty, is_optional, is_boolean, is_object, is_email, max_length,
  text, flag, object, Property, Dto, Validator, IsValidator, value_of, is_known, meets,
  PropertyType,
}

abbrev string : String → List Decorator → Property
string name decorators = record { name = name; type = text; decorators = decorators }

abbrev pub create_tenant_dto : Dto
create_tenant_dto =
    string "name" (is_not_empty ∷ is_string ∷ max_length 200 ∷ [])
    ∷ string "adminEmail" (is_not_empty ∷ is_email ∷ [])
    ∷ string "plan" (is_optional ∷ is_string ∷ max_length 50 ∷ [])
    ∷ string "phone" (is_optional ∷ is_string ∷ max_length 20 ∷ [])
    ∷ string "address" (is_optional ∷ is_string ∷ [])
    ∷ record { name = "metadata"; type = object; decorators = is_optional ∷ is_object ∷ [] }
    ∷ string "stripeCustomerId" (is_optional ∷ is_string ∷ max_length 100 ∷ [])
    ∷ string "trialEndsAt" (is_optional ∷ [])
    ∷ []

abbrev pub update_tenant_dto : Dto
update_tenant_dto =
    string "name" (is_optional ∷ is_string ∷ max_length 200 ∷ [])
    ∷ string "adminEmail" (is_optional ∷ is_email ∷ [])
    ∷ string "plan" (is_optional ∷ is_string ∷ max_length 50 ∷ [])
    ∷ string "phone" (is_optional ∷ is_string ∷ max_length 20 ∷ [])
    ∷ string "address" (is_optional ∷ is_string ∷ [])
    ∷ record { name = "metadata"; type = object; decorators = is_optional ∷ is_object ∷ [] }
    ∷ string "stripeCustomerId" (is_optional ∷ is_string ∷ max_length 100 ∷ [])
    ∷ []

abbrev pub suspend_tenant_dto : Dto
suspend_tenant_dto = string "reason" (is_optional ∷ is_string ∷ []) ∷ []

abbrev pub toggle_feature_dto : Dto
toggle_feature_dto =
    record { name = "enabled"; type = flag; decorators = is_not_empty ∷ is_boolean ∷ [] } ∷ []

update_keys :
    {V : Type 0} (body : List (String × V))
    → all (λ (key, _). is_known create_tenant_dto key) body ≡ true
    → value_of "trialEndsAt" body ≡ none
    → all (λ (key, _). is_known update_tenant_dto key) body ≡ true
update_keys [] h absent = refl
update_keys ((key, x) ∷ body) h absent = elim (Bool-cases (key == "trialEndsAt")) [
  | inl e ↦ cc (rw e at absent)
  | inr e ↦ ground (arith, eq_iff "trialEndsAt" key, eq_iff key "trialEndsAt", update_keys body)
]

-- Where a property may be missing it takes what it takes where it may be neither missing nor empty.
meets_optional :
    {V : Type 0} (is_null : V → Bool) (accepts : PropertyType → Decorator → Option V → Bool)
    (value : Option V) (name : String) (d : Decorator) (ds : List Decorator)
    → meets is_null accepts value (string name (is_not_empty ∷ d ∷ ds)) ≡ true
    → meets is_null accepts value (string name (is_optional ∷ d ∷ ds)) ≡ true
unfolding meets
meets_optional is_null accepts value name d ds h = ground arith

-- A body that the creation of a tenant takes, and that has no end of a trial, is one that its
-- update takes.
validate-update_tenant_dto :
    (v : Validator) (body : List (String × v.Value))
    → IsValidator v
    → value_of "trialEndsAt" body ≡ none
    → v.validate create_tenant_dto body ≡ true
    → v.validate update_tenant_dto body ≡ true
validate-update_tenant_dto v body law absent h =
    let passed = rw (law.validate_lem create_tenant_dto body) at h in
    let known : all (λ (key, _). is_known create_tenant_dto key) body ≡ true = ground arith in
    let also = update_keys body known absent in
    let name =
      meets_optional v.is_null v.accepts (value_of "name" body) "name" is_string
        (max_length 200 ∷ []) in
    let email =
      meets_optional v.is_null v.accepts (value_of "adminEmail" body) "adminEmail" is_email [] in
    rw (law.validate_lem update_tenant_dto body, also) (ground arith)
