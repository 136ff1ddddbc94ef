-- ===== src/Sdk/Web/Scoped.antt =====
-- packages/chassis-sdk/src: a query of a request through the tenant-context middleware and the
-- tenant-aware repository.
use saas_chassis.Prelude.{
  ◌≡◌, ◌⊎◌, inl, inr, true, false, some, [], ◌∷◌, ◌++◌, Result, ok, arith, truthy, or_falsy-truthy,
  same_text, same_text-eq, Option-cases, Bool-cases,
}
use saas_chassis.Sdk.TenantAware.{TenantContextData, Call, release, Trace, with_tenant_context}
use saas_chassis.Sdk.TenantAware.Protocol.{protocol, with_tenant_context-ok}
use saas_chassis.Sdk.Web.{RequestHeaders, platform_admin_tenant_id, context_of}

context_of-cases :
    (headers : RequestHeaders) (c : TenantContextData)
    → context_of headers ≡ some c
    → (((headers.tenant_id ≡ some c.tenant_id) × (truthy headers.tenant_id ≡ true))
        ⊎ ((headers.is_platform_admin ≡ some "true")
            × (truthy headers.tenant_id ≡ false)
            × (c.tenant_id ≡ platform_admin_tenant_id)))
      × (c.is_platform_admin ≡ same_text headers.is_platform_admin (some "true"))
unfolding context_of
context_of-cases headers c h = (
  elim (Bool-cases (truthy headers.tenant_id)) [
    | inl given ↦ inl (
      or_falsy-truthy headers.tenant_id platform_admin_tenant_id c.tenant_id (ground arith) given,
      given,
    )
    | inr missing ↦
        inr (same_text-eq headers.is_platform_admin "true" (ground arith), missing, ground arith)
  ],
  ground arith,
)

module _ {R : Type 0} (answer : Trace → Call → Result (Unit {0})) (result : Trace → Result R) where
  -- A query of a request through the middleware returns only in a context: that of its tenant
  -- header, or of the sentinel tenant for a platform administrator without one. Its runner made the
  -- settings of exactly that tenant, with the admin setting of the request's admin header, before
  -- the query.
  pub with_tenant_context-context_of :
      (headers : RequestHeaders) (r : R) (t : Trace)
      → with_tenant_context answer result (context_of headers) [] ≡ (ok r, t)
      → (c : TenantContextData) × (t ≡ protocol c ++ release ∷ [])
        × (((headers.tenant_id ≡ some c.tenant_id) × (truthy headers.tenant_id ≡ true))
            ⊎ ((headers.is_platform_admin ≡ some "true")
                × (truthy headers.tenant_id ≡ false)
                × (c.tenant_id ≡ platform_admin_tenant_id)))
        × (c.is_platform_admin ≡ same_text headers.is_platform_admin (some "true"))
  unfolding with_tenant_context
  with_tenant_context-context_of headers r t h = elim (Option-cases (context_of headers)) [
    | inl absent ↦ (let e = rw absent at h in cc)
    | inr (c, e) ↦
        let (trace, _) = with_tenant_context-ok answer result c r t (rw e at h) in
        let (from, admin) = context_of-cases headers c e in (c, trace, from, admin)
  ]
