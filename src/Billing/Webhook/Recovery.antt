-- ===== src/Billing/Webhook/Recovery.antt =====
-- services/billing-engine/src/modules/stripe/stripe-webhook.controller.ts: a payment that fails and is
-- then made.
use saas_chassis.Prelude.{ℕ, ◌≡◌, ap, ◌∙◌, String, Bool, none, some, ok, or_else}
use saas_chassis.External.Repository.{IsTable}
use saas_chassis.External.Broker.{publish_message}
use saas_chassis.Billing.Entities.{
  Subscription, StripeInvoice, subscription_status, audit_payment_succeeded, invoice_paid,
  invoice_payment_failed,
}
use saas_chassis.Billing.State.{Env, World}
use saas_chassis.Billing.Subscriptions.{of_customer}
use saas_chassis.Billing.Webhook.{process_event}
use saas_chassis.Billing.Webhook.Payments.{
  IsOwned, IsMarked, marked-found, marked-IsOwned, marked-row, handle_invoice_payment_failed-ok,
  handle_invoice_paid-ok, handle_invoice_paid-queried,
}

module _ (env : Env) {same : Subscription → Subscription → Bool}
    (s : IsTable same env.subscriptions) where
  -- Where the subscriptions of a Stripe customer are those of one tenant, and a query of the customer
  -- finds one: once the events of a failed payment of the customer and then of a payment have been
  -- processed, the first has published the subscription.status message past_due of the tenant and
  -- left each subscription of the customer past_due, and the second has published the audit message
  -- of the payment and then the subscription.status message active, and left each active.
  pub process_event-recovers :
      (now later : ℕ) (customer id : String) (x : Subscription) (i j : StripeInvoice)
      (w w1 w2 : World env)
      → IsOwned env customer id w.subscriptions
      → or_else i.customer "" ≡ customer
      → or_else j.customer "" ≡ customer
      → env.subscriptions.find_one (of_customer customer) w.subscriptions ≡ ok (some x)
      → process_event env now (invoice_payment_failed i) w ≡ (ok tt, w1)
      → process_event env later (invoice_paid j) w1 ≡ (ok tt, w2)
      → (w1.publisher
          ≡ publish_message env.broker
              (record {
                exchange = "chassis.billing";
                routing_key = "subscription.status";
                message = subscription_status id "past_due" none;
              })
              w.publisher)
        × (w2.publisher
            ≡ publish_message env.broker
                (record {
                  exchange = "chassis.billing";
                  routing_key = "subscription.status";
                  message = subscription_status id "active" none;
                })
                (publish_message env.broker
                  (record {
                    exchange = "chassis.audit";
                    routing_key = "billing.payment.succeeded";
                    message = audit_payment_succeeded j.id customer id j.amount_paid j.currency;
                  })
                  w1.publisher))
        × IsMarked env customer id "past_due" w1.subscriptions
        × IsMarked env customer id "active" w2.subscriptions
  unfolding process_event
  process_event-recovers now later customer id x i j w w1 w2 owned ci cj q failed paid =
      let (marked, first) =
        handle_invoice_payment_failed-ok env s customer id x i w w1 owned ci q failed in
      let owned1 =
        marked-IsOwned env s customer id "past_due" w.subscriptions w1.subscriptions marked owned in
      let (o, f) = handle_invoice_paid-queried env later j w1 w2 paid in
      let (z, e, own, late) =
        marked-found env s customer id "past_due" w.subscriptions w1.subscriptions marked owned x o
          q (rw cj at f) in
      let (active, second) =
        handle_invoice_paid-ok env s customer id z later j w1 w2 owned1 cj (rw cj at f ∙ ap ok e)
          late paid in
      let row =
        marked-row env s customer id "past_due" w.subscriptions w1.subscriptions marked owned in
      let row' =
        marked-row env s customer id "active" w1.subscriptions w2.subscriptions active owned1 in
      (first, second, record { at = row }, record { at = row' })
