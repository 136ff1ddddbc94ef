-- ===== src/Sdk/TenantAware/Protocol.antt =====
-- The order of the calls that packages/chassis-sdk/src/database/tenant-aware.repository.ts makes
-- on a fresh query runner.
use saas_chassis.Prelude.{
  ℕ, ◌≤◌, ◌≡◌, ◌⊎◌, inl, inr, some, [], ◌∷◌, ◌++◌, Result, ok, err, Exception, take, arith,
  Result-cases, pure, ◌>>=◌, ◌>>◌,
}
use saas_chassis.Sdk.TenantAware.{
  TenantContextData, Call, connect, start_transaction, work, commit, rollback, release, set_tenant,
  set_admin, Trace, in_transaction, call, run, with_tenant_context, set_rls_context,
}

-- The calls before the release when all goes well.
abbrev pub protocol : TenantContextData → Trace
protocol c =
    connect
    ∷ start_transaction
    ∷ set_tenant c.tenant_id
    ∷ set_admin c.is_platform_admin
    ∷ work
    ∷ commit
    ∷ []

module _ {R : Type 0} (answer : Trace → Call → Result (Unit {0})) (result : Trace → Result R) where
  -- A query returns only if its runner was connected, its transaction was opened, both settings of
  -- the request's tenant were made before the query, and it was committed and released, in that
  -- order; and what it returns is what the callback's query returned under those settings.
  pub with_tenant_context-ok :
      (c : TenantContextData) (r : R) (t : Trace)
      → with_tenant_context answer result (some c) [] ≡ (ok r, t)
      → (t ≡ protocol c ++ release ∷ []) × (result (take 4 (protocol c)) ≡ ok r)
  unfolding with_tenant_context
  with_tenant_context-ok c r t h = ground arith

  -- A query that throws has stopped at one of the six calls and was then rolled back and released,
  -- or threw in the release, after the commit.
  pub with_tenant_context-err :
      (c : TenantContextData) (e : Exception) (t : Trace)
      → with_tenant_context answer result (some c) [] ≡ (err e, t)
      → (t ≡ protocol c ++ release ∷ [])
        ⊎ ((n : ℕ) × (1 ≤ n) × (n ≤ 6) × (t ≡ take n (protocol c) ++ rollback ∷ release ∷ []))
  unfolding with_tenant_context
  with_tenant_context-err c e t h = elim (Result-cases (answer [] connect)) [
    | inr (_, q) ↦ inr (1, omega arith, omega arith, ground arith)
    | inl (_, q1) ↦ elim (Result-cases (answer (take 1 (protocol c)) start_transaction)) [
      | inr (_, q) ↦ inr (2, omega arith, omega arith, ground arith)
      | inl (_, q2) ↦ elim (Result-cases (answer (take 2 (protocol c)) (set_tenant c.tenant_id))) [
        | inr (_, q) ↦ inr (3, omega arith, omega arith, ground arith)
        | inl (_, q3) ↦
            elim (Result-cases (answer (take 3 (protocol c)) (set_admin c.is_platform_admin))) [
              | inr (_, q) ↦ inr (4, omega arith, omega arith, ground arith)
              | inl (_, q4) ↦ elim (Result-cases (result (take 4 (protocol c)))) [
                | inr (_, q) ↦ inr (5, omega arith, omega arith, ground arith)
                | inl (_, q5) ↦ elim (Result-cases (answer (take 5 (protocol c)) commit)) [
                  | inr (_, q) ↦ inr (6, omega arith, omega arith, ground arith)
                  | inl (_, q6) ↦ inl (ground arith)
                ]
              ]
            ]
      ]
    ]
  ]

  -- A caller that opens its own transaction, sets it up by setRlsContext, and commits, makes the
  -- calls of the repository's transaction, and ends as it does.
  in_transaction-set_rls_context :
      (c : TenantContextData) (t : Trace)
      → (call answer result connect
            >> call answer result start_transaction
            >> set_rls_context answer result (some c)
            >> (run answer result >>= λ r. call answer result commit >> pure r))
          t
        ≡ in_transaction answer result c t
  unfolding in_transaction set_rls_context
  in_transaction-set_rls_context c t = ground arith
