-- ===== src/Sdk/Web/Internal.antt =====
-- packages/chassis-sdk/src/services/internal-http.service.ts: the headers of a call between services.
use saas_chassis.Prelude.{
  ◌≡◌, refl, inl, inr, String, true, Option, none, some, [], ◌∷◌, ◌++◌, ok, if◌then◌else◌, truthy,
  Option-cases, eq_refl,
}
use saas_chassis.TenantManager.Context.{internal_service_guard}
use saas_chassis.Sdk.Web.{HeaderList, header, merged_headers}

-- A header of two lists is that of the second, or else that of the first.
header-append :
    (name : String) (xs ys : HeaderList)
    → header name (xs ++ ys) ≡ elim (header name ys) [ none ↦ header name xs | some v ↦ some v ]
header-append name [] ys = elim (Option-cases (header name ys)) [ inl e ↦ rw e | inr (v, e) ↦ rw e ]
header-append name ((k, v) ∷ xs) ys = elim (Option-cases (header name ys)) [
  | inl e ↦ rw (header-append name xs ys, e)
  | inr (u, e) ↦ rw (header-append name xs ys, e)
]

-- A call between services with a configured token that is not empty carries that token, whatever
-- headers the caller gives, and the guard of a service with the same token lets it pass.
merged_headers-guard :
    (service_name : Option String) (token : String) (headers : HeaderList)
    → truthy (some token) ≡ true
    → (header "X-Service-Token" (merged_headers service_name (some token) headers) ≡ some token)
      × (internal_service_guard
            (header "X-Service-Token" (merged_headers service_name (some token) headers))
            (some token)
          ≡ ok true)
unfolding merged_headers internal_service_guard
merged_headers-guard service_name token headers h =
    let name : String = "X-Service-Token" in
    let own : HeaderList = (name, token) ∷ [] in
    let last : header name (headers ++ (if truthy (some token) then own else [])) ≡ some token =
      rw h (header-append name headers own) in
    let held : header name (merged_headers service_name (some token) headers) ≡ some token =
      rw last refl in
    (held, rw (held, h, eq_refl token) refl)
