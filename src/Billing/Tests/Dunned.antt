-- ===== src/Billing/Tests/Dunned.antt =====
-- A failed payment and its recovery in services/billing-engine at concrete events.
use saas_chassis.Prelude.{◌≡◌, refl, ap, inl, inr, none, some, ok}
use saas_chassis.External.Repository.Memory
use saas_chassis.External.Broker.{publish_message}
use saas_chassis.Billing.Entities.{
  Subscription, StripeInvoice, subscription_status, audit_payment_succeeded, invoice_paid,
  invoice_payment_failed,
}
use saas_chassis.Billing.State.{World}
use saas_chassis.Billing.Subscriptions.{new_subscription, update_status_by_tenant_id}
use saas_chassis.Billing.Invoices.{upsert_from_stripe}
use saas_chassis.Billing.Webhook.{
  process_event, handle_invoice_paid, handle_invoice_payment_failed, publish_subscription_status,
}
use saas_chassis.Billing.Webhook.Payments.{IsOwned, IsMarked}
use saas_chassis.Billing.Webhook.Recovery.{process_event-recovers}
use saas_chassis.Billing.Api.Own.{same_subscription}
use saas_chassis.Billing.Tests.{env, world}

abbrev charged : StripeInvoice
charged = record {
  id = "in_1";
  customer = some "old";
  amount_due = 500;
  amount_paid = 0;
  currency = "usd";
  hosted_invoice_url = none;
  invoice_pdf = none;
  period_start = 0;
  period_end = 0;
}

abbrev settled : StripeInvoice
settled = record charged { amount_paid = 500 }

abbrev subscribed : Subscription
subscribed = new_subscription (record {
  tenant_id = "t1";
  stripe_customer_id = "old";
  plan_code = "basic";
  status = none;
  stripe_subscription_id = none;
})

abbrev unpaid : World env
unpaid = (process_event env 100 (invoice_payment_failed charged) world).1

abbrev repaid : World env
repaid = (process_event env 200 (invoice_paid settled) unpaid).1

refused : process_event env 100 (invoice_payment_failed charged) world ≡ (ok tt, unpaid)
unfolding process_event handle_invoice_payment_failed publish_subscription_status
    update_status_by_tenant_id
refused = refl

accepted : process_event env 200 (invoice_paid settled) unpaid ≡ (ok tt, repaid)
unfolding process_event handle_invoice_payment_failed handle_invoice_paid
    publish_subscription_status update_status_by_tenant_id upsert_from_stripe
accepted = refl

one_owner : IsOwned env "old" "t1" world.subscriptions
one_owner = record {
  owner =
      λ x has e. elim has [ inl p ↦ ap (λ (u : Subscription). u.tenant_id) p | inr n ↦ elim n [ ] ];
}

process_event-recovers_example :
    (unpaid.publisher
      ≡ publish_message env.broker
          (record {
            exchange = "chassis.billing";
            routing_key = "subscription.status";
            message = subscription_status "t1" "past_due" none;
          })
          world.publisher)
    × (repaid.publisher
        ≡ publish_message env.broker
            (record {
              exchange = "chassis.billing";
              routing_key = "subscription.status";
              message = subscription_status "t1" "active" none;
            })
            (publish_message env.broker
              (record {
                exchange = "chassis.audit";
                routing_key = "billing.payment.succeeded";
                message = audit_payment_succeeded "in_1" "old" "t1" 500 "usd";
              })
              unpaid.publisher))
    × IsMarked env "old" "t1" "past_due" unpaid.subscriptions
    × IsMarked env "old" "t1" "active" repaid.subscriptions
process_event-recovers_example =
    process_event-recovers env (Memory.memory-IsTable same_subscription "s9") 100 200 "old" "t1"
      subscribed charged settled world unpaid repaid one_owner refl refl refl refused accepted
