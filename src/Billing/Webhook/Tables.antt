-- ===== src/Billing/Webhook/Tables.antt =====
-- services/billing-engine/src/modules/stripe/stripe-webhook.controller.ts: which tables the
-- handlers of the events write.
use saas_chassis.Prelude.{
  ℕ, ◌≡◌, refl, inl, inr, String, none, some, Action, Result-cases, arith, Same, Same-IsPreorder,
}
use saas_chassis.Billing.Entities.{Invoice, EventBody}
use saas_chassis.Billing.State.{Env, World}
use saas_chassis.Billing.Subscriptions.{
  of_customer, update_from_stripe, link_stripe_subscription, update_status_by_tenant_id,
  link_stripe_customer_id, UpdateSubscriptionFromStripeDto, of_stripe,
}
use saas_chassis.Billing.Invoices.{upsert_from_stripe, of_stripe_invoice}
use saas_chassis.Billing.Webhook.{handle_customer_created, process_event}
use saas_chassis.Billing.Webhook.Steps.{Covers, process_event-Steps}

module _ (env : Env) where
  -- The action leaves the table of webhook events alone.
  abbrev Keeps : {A : Type 0} → Action (World env) A → Type 0
  Keeps {A} m = (w : World env) → (m w).1.webhooks ≡ w.webhooks

  update_from_stripe-Keeps :
      (dto : UpdateSubscriptionFromStripeDto) → Keeps (update_from_stripe env dto)
  unfolding update_from_stripe
  update_from_stripe-Keeps dto w =
      elim (Result-cases
        (env.subscriptions.find_one (of_stripe dto.stripe_subscription_id) w.subscriptions)) [
          | inl (none, q) ↦ ground arith
          | inl (some x, q) ↦ ground arith
          | inr (e, q) ↦ ground arith
        ]

  link_stripe_subscription-Keeps :
      (customer id status : String) (from until : ℕ)
      → Keeps (link_stripe_subscription env customer id status from until)
  unfolding link_stripe_subscription
  link_stripe_subscription-Keeps customer id status from until w =
      elim (Result-cases (env.subscriptions.find_one (of_customer customer) w.subscriptions)) [
        | inl (none, q) ↦ ground arith
        | inl (some x, q) ↦ ground arith
        | inr (e, q) ↦ ground arith
      ]

  upsert_from_stripe-Keeps : (dto : Invoice) → Keeps (upsert_from_stripe env dto)
  unfolding upsert_from_stripe
  upsert_from_stripe-Keeps dto w =
      elim (Result-cases
        (env.invoices.find_one (of_stripe_invoice dto.stripe_invoice_id) w.invoices)) [
          | inl (found, q) ↦ ground arith
          | inr (e, q) ↦ ground arith
        ]

  covers : Covers env (Same (λ (w : World env). w.webhooks))
  unfolding update_status_by_tenant_id
  covers = record {
    preorder = Same-IsPreorder (λ (w : World env). w.webhooks);
    updated = λ dto w. record { same = update_from_stripe-Keeps dto w };
    linked = λ customer id status from until w. record {
      same = link_stripe_subscription-Keeps customer id status from until w;
    };
    marked = λ tenant_id status w. record { same = refl };
    invoiced = λ dto w. record { same = upsert_from_stripe-Keeps dto w };
    told = λ exchange key m plain w. record { same = refl };
  }

  -- Processing an event leaves the table of webhook events as it was, whether it returns or throws.
  pub process_event-Keeps : (now : ℕ) (body : EventBody) → Keeps (process_event env now body)
  unfolding handle_customer_created link_stripe_customer_id
  process_event-Keeps now body w =
      (process_event-Steps env (Same (λ (w : World env). w.webhooks)) covers now body
        (λ x e w. record { same = ground arith }) w).same
