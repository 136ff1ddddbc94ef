-- ===== src/Sdk/TenantAware.antt =====
-- packages/chassis-sdk/src/database: the transaction round each query of
-- tenant-aware.repository.ts, and setRlsContext of rls-connection.ts.
pub mod Protocol
use saas_chassis.Prelude.{
  String, Bool, true, false, Option, none, some, List, [], ◌∷◌, ◌++◌, Result, ok, err, Action, pure,
  throw, ◌>>=◌, ◌>>◌, try_catch, error,
}

-- The data of the `AsyncLocalStorage`.
pub record TenantContextData : Type 0 where
  pub tenant_id : String
  pub user_id : String
  pub is_platform_admin : Bool

-- The calls that a query runner gets; `work` is the callback's query.
pub data Call : Type 0 where
  connect start_transaction work commit rollback release : Call
  set_tenant : String → Call
  set_admin : Bool → Call

-- The calls so far, in order.
abbrev pub Trace : Type 0
Trace = List Call

-- `answer` is how the driver ends a call after those of the trace, `result` what the callback's
-- query returns.
module _ {R : Type 0} (answer : Trace → Call → Result (Unit {0})) (result : Trace → Result R) where
  abbrev pub call : Call → Action Trace (Unit {0})
  call c t = (answer t c, t ++ c ∷ [])

  abbrev pub run : Action Trace R
  run t = (result t, t ++ work ∷ [])

  -- The body of the `try`.
  pub in_transaction : TenantContextData → Action Trace R
  in_transaction c = do
    call connect
    call start_transaction
    call (set_tenant c.tenant_id)
    call (set_admin c.is_platform_admin)
    r ← run
    call commit
    pure r

  pub rolled_back : TenantContextData → Action Trace R
  unfolding in_transaction
  rolled_back c = try_catch (in_transaction c) (λ e. call rollback >> throw e)

  -- `finally`: what `release` throws takes the place of the result.
  abbrev pub after_release : Result (Unit {0}) → Result R → Result R
  after_release (ok _) r = r
  after_release (err e) r = err e

  abbrev pub finally_release : Action Trace R → Action Trace R
  finally_release m t =
      let (r, t') = m t in let (q, t'') = call release t' in (after_release q r, t'')

  unfoldable pub with_tenant_context : Option TenantContextData → Action Trace R
  unfolding rolled_back
  with_tenant_context none = throw (
      error
        "TenantAwareRepository: No tenant context found. Ensure TenantContextMiddleware is applied.")
  with_tenant_context (some c) = finally_release (rolled_back c)

  -- `setRlsContext` on the query runner of a caller's own transaction.
  pub set_rls_context : Option TenantContextData → Action Trace (Unit {0})
  set_rls_context none = pure tt
  set_rls_context (some c) = call (set_tenant c.tenant_id) >> call (set_admin c.is_platform_admin)
