-- ===== src/TenantManager/Context/Settings.antt =====
-- services/tenant-manager/src/common: the settings that a request with given headers makes before
-- its queries.
use saas_chassis.Prelude.{
  ◌≡◌, refl, ◌⊎◌, inl, inr, Bool, true, false, String, Option, none, some, List, [], ◌∷◌, arith,
  truthy, or_falsy-truthy, same_text-eq, Bool-cases, Option-cases, not, ◌||◌, if◌then◌else◌, ◌==◌,
}
use saas_chassis.TenantManager.Context.{
  RequestHeaders, TenantContextData, show_bool, context_of, before_query,
}

-- The value of a setting after `set_config` calls, where they make one.
abbrev pub setting : String → List (String × String) → Option String
setting name [] = none
setting name ((key, value) ∷ rest) = elim (setting name rest) [
  | some later ↦ some later
  | none ↦ if key == name then some value else none
]

abbrev pub nil_uuid : String
nil_uuid = "00000000-0000-0000-0000-000000000000"

admin-show_bool : (b : Bool) → some (show_bool b) ≡ some "true" → b ≡ true
admin-show_bool true h = refl
admin-show_bool false h = cc

-- What the settings of a context say of it.
module _ (store : TenantContextData) (has_runner : Bool) where
  before_query-admin :
      setting "app.is_platform_admin" (before_query (some store) has_runner) ≡ some "true"
      → store.is_platform_admin ≡ true
  unfolding before_query
  before_query-admin h = elim (Bool-cases (not (truthy (some store.tenant_id)) || not has_runner)) [
    | inl e ↦ cc (rw e at h)
    | inr e ↦ admin-show_bool store.is_platform_admin (rw e at h)
  ]

  before_query-tenant :
      (tenant_id : String)
      → setting "app.current_tenant_id" (before_query (some store) has_runner) ≡ some tenant_id
      → store.tenant_id ≡ tenant_id
  unfolding before_query
  before_query-tenant tenant_id h =
      elim (Bool-cases (not (truthy (some store.tenant_id)) || not has_runner)) [
        | inl e ↦ cc (rw e at h)
        | inr e ↦ let e' : some store.tenant_id ≡ some tenant_id = rw e at h in cc
      ]

-- A request's queries are made as a platform administrator only if its admin header is 'true', and
-- for a tenant only if that is its tenant header, or for the nil UUID if the admin header is 'true'
-- and the tenant header is missing or empty.
pub before_query-context_of :
    (headers : RequestHeaders) (has_runner : Bool) (tenant_id : String)
    → (setting "app.is_platform_admin" (before_query (context_of headers) has_runner) ≡ some "true"
        → headers.is_platform_admin ≡ some "true")
      × (setting "app.current_tenant_id" (before_query (context_of headers) has_runner)
            ≡ some tenant_id
          → ((headers.tenant_id ≡ some tenant_id) × (truthy headers.tenant_id ≡ true))
            ⊎ ((headers.is_platform_admin ≡ some "true")
                × (truthy headers.tenant_id ≡ false)
                × (tenant_id ≡ nil_uuid)))
unfolding before_query context_of
before_query-context_of headers has_runner tenant_id = elim (Option-cases (context_of headers)) [
  | inl none_set ↦ (λ h. cc (rw none_set at h), λ h. cc (rw none_set at h))
  | inr (store, e) ↦ (
    λ h.
        let admin = before_query-admin store has_runner (rw e at h) in
        same_text-eq headers.is_platform_admin "true" (ground arith),
    λ h.
        let tenant = before_query-tenant store has_runner tenant_id (rw e at h) in
        elim (Bool-cases (truthy headers.tenant_id)) [
          | inl given ↦
              inl (or_falsy-truthy headers.tenant_id nil_uuid tenant_id (ground arith) given, given)
          | inr missing ↦
              inr (
                same_text-eq headers.is_platform_admin "true" (ground arith),
                missing,
                ground arith,
              )
        ],
  )
]
