-- ===== src/Billing/Webhook.antt =====
-- services/billing-engine/src/modules/stripe/stripe-webhook.controller.ts. `now` is the time that
-- `new Date()` reads.
pub mod Idempotence
pub mod Owners
pub mod Payments
pub mod Recovery
pub mod Steps
pub mod Tables
use saas_chassis.Prelude.{
  ℕ, zero, suc, ◌*◌, String, Bool, true, false, Option, none, some, Result, ok, err, Exception,
  message_of, Action, pure, ◌>>=◌, ◌>>◌, ◌==◌, try_catch, when, truthy, or_else, if◌then◌else◌,
  is_some,
}
use saas_chassis.Billing.Entities.{
  Subscription, Invoice, InvoiceStatus, StripeSubscription, StripeInvoice, StripeCustomer,
  EventBody, subscription_created, subscription_updated, subscription_deleted, invoice_paid,
  invoice_payment_failed, customer_created, other, Event, WebhookEvent, TenantProvisionedEvent,
  billing_synced, subscription_status, audit_subscription_created, audit_payment_succeeded,
}
use saas_chassis.Billing.State.{
  Env, World, find_one_webhook, upsert_webhook, update_webhooks, publish,
}
use saas_chassis.Billing.Subscriptions.{
  UpdateSubscriptionFromStripeDto, find_by_stripe_customer_id, create, update_from_stripe,
  link_stripe_subscription, update_status_by_tenant_id, link_stripe_customer_id,
}
use saas_chassis.Billing.Invoices.{upsert_from_stripe}

-- The answer of the endpoint: 400, or 200 with `duplicate` set or not.
pub data Response : Type 0 where
  signature_failed : Response
  received : (duplicate : Bool) → Response

-- `price?.lookup_key ?? price?.id ?? undefined`
abbrev pub plan_code_of : StripeSubscription → Option String
plan_code_of x = elim x.lookup_key [ none ↦ x.price_id | some key ↦ some key ]

-- `seconds ? new Date(seconds * 1000) : null`
abbrev pub date_or_null : ℕ → Option ℕ
date_or_null zero = none
date_or_null (suc n) = some (suc n * 1000)

-- `if (plan) payload.plan = plan`
abbrev pub plan_field : Option String → Option String
plan_field plan = if truthy plan then plan else none

abbrev pub paid_invoice : (now : ℕ) → (tenant_id customer : String) → StripeInvoice → Invoice
paid_invoice now tenant_id customer i = record {
  tenant_id = tenant_id;
  stripe_invoice_id = i.id;
  stripe_customer_id = customer;
  amount_due = i.amount_due;
  amount_paid = i.amount_paid;
  currency = i.currency;
  status = InvoiceStatus.paid;
  invoice_url = i.hosted_invoice_url;
  invoice_pdf = i.invoice_pdf;
  period_start = date_or_null i.period_start;
  period_end = date_or_null i.period_end;
  paid_at = some now;
}

abbrev pub has_event_id : String → WebhookEvent → Bool
has_event_id id x = x.stripe_event_id == id

-- `existing?.processed`
abbrev pub already_processed : Option WebhookEvent → Bool
already_processed none = false
already_processed (some x) = x.processed

-- The changes that the updated and the deleted subscription bring.
abbrev pub on_updated : StripeSubscription → UpdateSubscriptionFromStripeDto
on_updated x = record {
  stripe_subscription_id = x.id;
  plan_code = plan_code_of x;
  status = some x.status;
  current_period_start = some (x.current_period_start * 1000);
  current_period_end = some (x.current_period_end * 1000);
  cancel_at_period_end = some x.cancel_at_period_end;
}

abbrev pub on_deleted : StripeSubscription → UpdateSubscriptionFromStripeDto
on_deleted x = record {
  stripe_subscription_id = x.id;
  plan_code = none;
  status = some "canceled";
  current_period_start = none;
  current_period_end = none;
  cancel_at_period_end = none;
}

module _ (env : Env) where
  publish_for :
      (status : String)
      → (plan : Option String) → Option Subscription
      → Action (World env) (Unit {0})
  publish_for status plan none = pure tt
  publish_for status plan (some x) =
      publish env "chassis.billing" "subscription.status"
        (subscription_status x.tenant_id status (plan_field plan))

  unfoldable pub publish_subscription_status :
      (customer status : String) → (plan : Option String) → Action (World env) (Unit {0})
  unfolding publish_for
  publish_subscription_status customer status plan = do
    found ← find_by_stripe_customer_id env customer
    publish_for status plan found

  unfoldable pub handle_subscription_created : StripeSubscription → Action (World env) (Unit {0})
  handle_subscription_created x = do
    link_stripe_subscription env x.customer x.id x.status (x.current_period_start * 1000)
        (x.current_period_end * 1000)
    publish_subscription_status x.customer x.status none
    publish env "chassis.audit" "billing.subscription.created"
        (audit_subscription_created x.id x.customer x.status)

  unfoldable pub handle_subscription_updated : StripeSubscription → Action (World env) (Unit {0})
  handle_subscription_updated x = do
    update_from_stripe env (on_updated x)
    publish_subscription_status x.customer x.status (plan_code_of x)

  unfoldable pub handle_subscription_deleted : StripeSubscription → Action (World env) (Unit {0})
  handle_subscription_deleted x = do
    update_from_stripe env (on_deleted x)
    publish_subscription_status x.customer "canceled" none

  record_payment :
      (now : ℕ)
      → (customer : String) → StripeInvoice
      → Option Subscription
      → Action (World env) (Unit {0})
  record_payment now customer i none = pure tt
  record_payment now customer i (some local) = do
    upsert_from_stripe env (paid_invoice now local.tenant_id customer i)
    publish env "chassis.audit" "billing.payment.succeeded"
        (audit_payment_succeeded i.id customer local.tenant_id i.amount_paid i.currency)
    when (local.status == "past_due") (do
      update_status_by_tenant_id env local.tenant_id "active"
      publish_subscription_status customer "active" none)

  unfoldable pub handle_invoice_paid : (now : ℕ) → StripeInvoice → Action (World env) (Unit {0})
  unfolding record_payment
  handle_invoice_paid now i = do
    let customer = or_else i.customer ""
    found ← find_by_stripe_customer_id env customer
    record_payment now customer i found

  mark_past_due : (customer : String) → Option Subscription → Action (World env) (Unit {0})
  mark_past_due customer none = pure tt
  mark_past_due customer (some local) = do
    update_status_by_tenant_id env local.tenant_id "past_due"
    publish_subscription_status customer "past_due" none

  unfoldable pub handle_invoice_payment_failed : StripeInvoice → Action (World env) (Unit {0})
  unfolding mark_past_due
  handle_invoice_payment_failed i = do
    let customer = or_else i.customer ""
    found ← find_by_stripe_customer_id env customer
    mark_past_due customer found

  unfoldable pub handle_customer_created : StripeCustomer → Action (World env) (Unit {0})
  handle_customer_created c =
      if truthy c.tenant_id
      then link_stripe_customer_id env (or_else c.tenant_id "") c.id
      else pure tt

  unfoldable pub process_event : (now : ℕ) → EventBody → Action (World env) (Unit {0})
  process_event now (subscription_created x) = handle_subscription_created x
  process_event now (subscription_updated x) = handle_subscription_updated x
  process_event now (subscription_deleted x) = handle_subscription_deleted x
  process_event now (invoice_paid i) = handle_invoice_paid now i
  process_event now (invoice_payment_failed i) = handle_invoice_payment_failed i
  process_event now (customer_created c) = handle_customer_created c
  process_event now (other type) = pure tt

  -- The `try … catch` round `processEvent`.
  process_stored : (now : ℕ) → Event → Action (World env) (Unit {0})
  process_stored now event =
      try_catch
        (do
          process_event now event.body
          update_webhooks env (has_event_id event.id)
              (λ x. record x { processed = true; processed_at = some now }))
        (λ e.
          update_webhooks env (has_event_id event.id)
            (λ x. record x { error_message = some (message_of e) }))

  store_and_process : (now : ℕ) → Event → Action (World env) Response
  unfolding process_stored
  store_and_process now event = do
    upsert_webhook env
        (record {
          stripe_event_id = event.id;
          payload = event.body;
          processed = false;
          processed_at = none;
          error_message = none;
        })
        (λ x. record x { payload = event.body; processed = false })
    process_stored now event
    pure (received false)

  on_event : (now : ℕ) → Event → Action (World env) Response
  unfolding store_and_process
  on_event now event = do
    existing ← find_one_webhook env (has_event_id event.id)
    if already_processed existing then pure (received true) else store_and_process now event

  on_constructed : (now : ℕ) → Result Event → Action (World env) Response
  unfolding on_event
  on_constructed now (err e) = pure signature_failed
  on_constructed now (ok event) = on_event now event

  unfoldable pub handle_webhook :
      (now : ℕ) → (raw_body signature : String) → Action (World env) Response
  unfolding on_constructed
  handle_webhook now raw_body signature =
      on_constructed now (env.construct_event raw_body signature (or_else env.webhook_secret ""))

  provision_billing : TenantProvisionedEvent → Result String → Action (World env) (Unit {0})
  provision_billing msg (err e) w = (err e, w)
  provision_billing msg (ok customer) w =
      (do
        create env (record {
          tenant_id = msg.tenant_id;
          stripe_customer_id = customer;
          plan_code = msg.plan;
          status = some (if msg.plan == "free" then "active" else "trialing");
          stripe_subscription_id = none;
        })
        publish env "chassis.tenants" "billing.synced" (billing_synced msg.tenant_id customer))
        w

  -- An error is logged and swallowed.
  unfoldable pub on_tenant_provisioned : TenantProvisionedEvent → Action (World env) (Unit {0})
  unfolding provision_billing
  on_tenant_provisioned msg =
      try_catch (provision_billing msg (env.create_customer msg.admin_email msg.slug msg.tenant_id))
        (λ _. pure tt)
