-- ===== src/Billing/Invoices.antt =====
-- services/billing-engine/src/modules/invoices/invoices.service.ts, but for its sums, which stand in Revenue.
pub mod Replay
use saas_chassis.Prelude.{
  ℕ, ◌-◌, ◌*◌, List, [], ◌∷◌, String, Bool, Option, none, some, Action, pure, ◌>>=◌, ◌>>◌, ◌==◌,
}
use saas_chassis.External.Repository.{descending}
use saas_chassis.Billing.Entities.{Invoice}
use saas_chassis.Billing.State.{Env, World, find_one_invoice, find_and_count_invoices, save_invoice}

abbrev pub of_stripe_invoice : String → Invoice → Bool
of_stripe_invoice id x = x.stripe_invoice_id == id

-- `dto.paidAt ?? existing.paidAt`
abbrev pub or_existing : Option ℕ → Option ℕ → Option ℕ
or_existing none old = old
or_existing (some new) old = some new

-- The invoice to save: `dto` has the type of a whole new invoice.
abbrev pub merged : Invoice → Option Invoice → Invoice
merged dto none = dto
merged dto (some existing) = record existing {
  status = dto.status;
  amount_paid = dto.amount_paid;
  paid_at = or_existing dto.paid_at existing.paid_at;
}

pub record PaginatedInvoices : Type 0 where
  pub items : List Invoice
  pub total : ℕ
  pub page : ℕ
  pub limit : ℕ

module _ (env : Env) where
  unfoldable pub find_by_tenant_id :
      String → (page limit : ℕ) → Action (World env) PaginatedInvoices
  find_by_tenant_id tenant_id page limit = do
    result ←
        find_and_count_invoices env (λ x. x.tenant_id == tenant_id) (("createdAt", descending) ∷ [])
          ((page - 1) * limit) limit
    pure (record { items = result.0; total = result.1; page = page; limit = limit })

  unfoldable pub upsert_from_stripe : (dto : Invoice) → Action (World env) Invoice
  upsert_from_stripe dto = do
    existing ← find_one_invoice env (of_stripe_invoice dto.stripe_invoice_id)
    save_invoice env (merged dto existing)
    pure (merged dto existing)
