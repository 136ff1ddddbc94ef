-- ===== src/Billing/Tests.antt =====
-- services/billing-engine at concrete inputs, over tables in memory.
mod Reports
mod Dunned
use saas_chassis.Prelude.{◌↔◌}
use saas_chassis.Billing.Entities.{Invoice, InvoiceStatus}
use saas_chassis.Billing.Invoices.{upsert_from_stripe}
use saas_chassis.Billing.Invoices.Replay.{same_invoice, upsert_from_stripe-upsert_from_stripe}
use saas_chassis.Prelude.{◌≡◌, refl, ◌⊎◌, true, false, none, some, [], ◌∷◌, ok, ◌==◌, is_some}
use saas_chassis.External.Repository.Memory
use saas_chassis.External.Broker.{memory_broker}
use saas_chassis.Billing.Entities.{customer_created, Event, WebhookEvent}
use saas_chassis.Billing.State.{Env, World}
use saas_chassis.Billing.Subscriptions.{new_subscription, link_stripe_customer_id}
use saas_chassis.Billing.Webhook.{received, handle_webhook, process_event, handle_customer_created}
use saas_chassis.Billing.Webhook.Idempotence.{same_event, handle_webhook-handle_webhook}

abbrev pub event : Event
event = record {
  id = "evt_1";
  body = customer_created (record { id = "cus_1"; tenant_id = some "t1" });
}

abbrev pub env : Env
env = record {
  subscriptions = Memory.memory (λ x y. x.tenant_id == y.tenant_id) "s9";
  invoices = Memory.memory same_invoice "i9";
  webhooks = Memory.memory same_event "e9";
  broker = memory_broker;
  construct_event = λ raw signature secret. ok event;
  create_customer = λ email name tenant. ok "cus_1";
  webhook_secret = some "whsec";
  create_checkout_session = λ p. ok (some p.price);
  create_portal_session = λ customer url. ok url;
  success_url = "https://app/ok";
  cancel_url = "https://app/no";
  portal_return_url = "https://app";
  to_char = λ date format. format;
  month_of = λ date. 0;
  period_after = λ a b. false;
  created_at = λ s x. 0;
  updated_at = λ s x. 0;
}

abbrev pub world : World env
world = record {
  subscriptions =
      new_subscription (record {
        tenant_id = "t1";
        stripe_customer_id = "old";
        plan_code = "basic";
        status = none;
        stripe_subscription_id = none;
      })
      ∷ [];
  invoices = [];
  webhooks = [];
  publisher = some [];
}

abbrev delivered : World env
delivered = (handle_webhook env 100 "body" "sig" world).1

first : handle_webhook env 100 "body" "sig" world ≡ (ok (received false), delivered)
unfolding handle_webhook process_event handle_customer_created link_stripe_customer_id
first = refl

second : handle_webhook env 200 "body" "sig" delivered ≡ (ok (received true), delivered)
unfolding handle_webhook process_event handle_customer_created link_stripe_customer_id
second = refl

handle_webhook-handle_webhook_example :
    ((received true ≡ received true) × (delivered ≡ delivered))
    ⊎ ((y : WebhookEvent) × env.webhooks.Has delivered.webhooks y
        × (y.processed ≡ false)
        × (is_some y.error_message ≡ true))
handle_webhook-handle_webhook_example =
    handle_webhook-handle_webhook env (Memory.memory-IsTable same_event "e9") "body" "sig" 100 200
      world delivered delivered delivered (received true) first refl second

abbrev pub report : Invoice
report = record {
  tenant_id = "t1";
  stripe_invoice_id = "in_1";
  stripe_customer_id = "old";
  amount_due = 500;
  amount_paid = 500;
  currency = "usd";
  status = InvoiceStatus.paid;
  invoice_url = none;
  invoice_pdf = none;
  period_start = none;
  period_end = none;
  paid_at = some 900;
}

abbrev pub invoiced : World env
invoiced = (upsert_from_stripe env report world).1

recorded : upsert_from_stripe env report world ≡ (ok report, invoiced)
unfolding upsert_from_stripe
recorded = refl

recorded_again : upsert_from_stripe env report invoiced ≡ (ok report, invoiced)
unfolding upsert_from_stripe
recorded_again = refl

upsert_from_stripe-upsert_from_stripe_example :
    (report ≡ report)
    × ((y : Invoice) → env.invoices.Has invoiced.invoices y ↔ env.invoices.Has invoiced.invoices y)
upsert_from_stripe-upsert_from_stripe_example =
    upsert_from_stripe-upsert_from_stripe env (Memory.memory-IsTable same_invoice "i9") report
      report report world invoiced invoiced recorded recorded_again
