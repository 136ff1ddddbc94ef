-- ===== src/Billing/Invoices/Replay.antt =====
-- services/billing-engine/src/modules/invoices/invoices.service.ts: an invoice that Stripe reports
-- twice.
use saas_chassis.Prelude.{
  ◌≡◌, refl, ap, ◌∙◌, sym, ◌↔◌, inl, inr, Bool, none, some, ok, arith, ◌==◌, eq_iff, Result-cases,
  Option, Option-cases,
}
use saas_chassis.External.Repository.{IsTable}
use saas_chassis.External.Repository.Lookup.{find_one-save_self}
use saas_chassis.Billing.Entities.{Invoice}
use saas_chassis.Billing.State.{Env, World}
use saas_chassis.Billing.Invoices.{of_stripe_invoice, merged, upsert_from_stripe}

-- The unique key of the table invoices.
abbrev pub same_invoice : Invoice → Invoice → Bool
same_invoice x y = x.stripe_invoice_id == y.stripe_invoice_id

module _ (env : Env) (t : IsTable same_invoice env.invoices) where
  upsert_from_stripe-found :
      (dto i : Invoice) (w w' : World env)
      → upsert_from_stripe env dto w ≡ (ok i, w')
      → (found : Option Invoice) × (env.invoices.find_one
            (of_stripe_invoice dto.stripe_invoice_id)
            w.invoices
          ≡ ok found)
        × (i ≡ merged dto found)
        × (env.invoices.save i w.invoices ≡ (ok tt, w'.invoices))
  unfolding upsert_from_stripe
  upsert_from_stripe-found dto i w w' h =
      elim (Result-cases
        (env.invoices.find_one (of_stripe_invoice dto.stripe_invoice_id) w.invoices)) [
          | inr (e, q) ↦ ground arith
          | inl (found, q) ↦ (found, q, ground arith, ground arith)
        ]

  merged-id :
      (dto : Invoice) (found : Option Invoice) (s : env.invoices.Store)
      → env.invoices.find_one (of_stripe_invoice dto.stripe_invoice_id) s ≡ ok found
      → (merged dto found).stripe_invoice_id ≡ dto.stripe_invoice_id
  merged-id dto none s q = refl
  merged-id dto (some x) s q =
      let (_, key) = t.find_one_some (of_stripe_invoice dto.stripe_invoice_id) s x q in
      (eq_iff x.stripe_invoice_id dto.stripe_invoice_id).0 key

  merged-merged :
      (dto : Invoice) (found : Option Invoice)
      → merged dto (some (merged dto found)) ≡ merged dto found
  merged-merged dto none = elim (Option-cases dto.paid_at) [
    | inl n ↦ ground arith
    | inr (d, n) ↦ ground arith
  ]
  merged-merged dto (some x) = elim (Option-cases dto.paid_at) [
    | inl n ↦ ground arith
    | inr (d, n) ↦ ground arith
  ]

  -- When the same report of an invoice is recorded twice in a row and both calls return, the second
  -- returns the invoice that the first returned and leaves the same invoices.
  pub upsert_from_stripe-upsert_from_stripe :
      (dto i j : Invoice) (w w' w'' : World env)
      → upsert_from_stripe env dto w ≡ (ok i, w')
      → upsert_from_stripe env dto w' ≡ (ok j, w'')
      → (j ≡ i) × ((y : Invoice) → env.invoices.Has w''.invoices y ↔ env.invoices.Has w'.invoices y)
  upsert_from_stripe-upsert_from_stripe dto i j w w' w'' first second =
      let p = of_stripe_invoice dto.stripe_invoice_id in
      let (found, q, made, saved) = upsert_from_stripe-found dto i w w' first in
      let (next, q', made', saved') = upsert_from_stripe-found dto j w' w'' second in
      let id : i.stripe_invoice_id ≡ dto.stripe_invoice_id =
        ap (λ (x : Invoice). x.stripe_invoice_id) made ∙ merged-id dto found w.invoices q in
      let e : next ≡ some i =
        find_one-save_self t p i w.invoices w'.invoices next
          (λ y. ground (
            arith,
            id,
            eq_iff i.stripe_invoice_id y.stripe_invoice_id,
            eq_iff y.stripe_invoice_id dto.stripe_invoice_id,
          ))
          ((eq_iff i.stripe_invoice_id dto.stripe_invoice_id).1 id) saved q' in
      let same : j ≡ i =
        made' ∙ ap (merged dto) (e ∙ ap some made) ∙ merged-merged dto found ∙ sym made in
      (
        same,
        λ y.
            let before = t.save_has i w.invoices w'.invoices y saved in
            let after = t.save_has j w'.invoices w''.invoices y saved' in
            (
              λ has. elim (after.0 has) [ inl n ↦ before.1 (inl (n ∙ same)) | inr (old, _) ↦ old ],
              λ has. elim (before.0 has) [
                | inl n ↦ after.1 (inl (n ∙ sym same))
                | inr (old, differs) ↦
                    after.1 (inr (has, ap (λ x. same_invoice x y) same ∙ differs))
              ],
            ),
      )
