-- ===== src/Billing/Webhook/Steps.antt =====
-- services/billing-engine/src/modules/stripe/stripe-webhook.controller.ts: what each call of the
-- handlers does to the state, the handling of an event does.
use saas_chassis.Prelude.{
  ℕ, ◌*◌, ◌≡◌, refl, inl, inr, String, Bool, true, false, Option, none, some, ok, pure, ◌>>◌,
  Result-cases, Bool-cases, try_catch, when, or_else, ◌==◌, Exception, message_of, IsPreorder,
  Steps, Steps->>=, Steps->>, when-Steps, try_catch-Steps,
}
use saas_chassis.Billing.Entities.{
  Subscription, Invoice, StripeInvoice, StripeCustomer, EventBody, subscription_created,
  subscription_updated, subscription_deleted, invoice_paid, invoice_payment_failed,
  customer_created, other, Event, WebhookEvent, Message, billing_synced, subscription_status,
  audit_payment_succeeded, audit_subscription_created,
}
use saas_chassis.Billing.State.{
  Env, World, publish, find_one_subscription, upsert_webhook, update_webhooks,
}
use saas_chassis.Billing.Subscriptions.{
  of_customer, update_from_stripe, link_stripe_subscription, update_status_by_tenant_id,
  UpdateSubscriptionFromStripeDto,
}
use saas_chassis.Billing.Invoices.{upsert_from_stripe}
use saas_chassis.Billing.Webhook.{
  publish_for, publish_subscription_status, handle_subscription_created,
  handle_subscription_updated, handle_subscription_deleted, handle_invoice_paid,
  handle_invoice_payment_failed, handle_customer_created, process_event, record_payment,
  mark_past_due, paid_invoice, on_updated, on_deleted, plan_code_of, plan_field, process_stored,
  store_and_process, on_event, on_constructed, handle_webhook, has_event_id, already_processed,
  received,
}

-- A message of the webhook: none of them announces a customer.
abbrev pub is_announcement : Message → Bool
is_announcement (billing_synced id customer) = true
is_announcement _ = false

module _ (env : Env) where
  -- The relation holds of each call that the handlers are made of.
  pub record Covers (R : World env → World env → Type 0) : Type 0 where
    pub preorder : IsPreorder R
    pub updated : (dto : UpdateSubscriptionFromStripeDto) → Steps R (update_from_stripe env dto)
    pub linked :
        (customer id status : String) (from until : ℕ)
        → Steps R (link_stripe_subscription env customer id status from until)
    pub marked :
        (tenant_id status : String) → Steps R (update_status_by_tenant_id env tenant_id status)
    pub invoiced : (dto : Invoice) → Steps R (upsert_from_stripe env dto)
    pub told :
        (exchange key : String) (m : Message)
        → is_announcement m ≡ false
        → Steps R (publish env exchange key m)

  module _ (R : World env → World env → Type 0) (c : Covers R) where
    find-Steps : (p : Subscription → Bool) → Steps R (find_one_subscription env p)
    find-Steps p = c.preorder.reflexive

    publish_for-Steps :
        (status : String) (plan : Option String) (found : Option Subscription)
        → Steps R (publish_for env status plan found)
    unfolding publish_for
    publish_for-Steps status plan none = c.preorder.reflexive
    publish_for-Steps status plan (some x) =
        c.told "chassis.billing" "subscription.status"
          (subscription_status x.tenant_id status (plan_field plan)) refl

    publish_subscription_status-Steps :
        (customer status : String) (plan : Option String)
        → Steps R (publish_subscription_status env customer status plan)
    unfolding publish_subscription_status
    publish_subscription_status-Steps customer status plan =
        Steps->>= c.preorder (find_one_subscription env (of_customer customer))
          (publish_for env status plan) (find-Steps (of_customer customer))
          (publish_for-Steps status plan)

    record_payment-Steps :
        (now : ℕ) (customer : String) (i : StripeInvoice) (found : Option Subscription)
        → Steps R (record_payment env now customer i found)
    unfolding record_payment
    record_payment-Steps now customer i none = c.preorder.reflexive
    record_payment-Steps now customer i (some local) =
        let insert = upsert_from_stripe env (paid_invoice now local.tenant_id customer i) in
        let message =
          audit_payment_succeeded i.id customer local.tenant_id i.amount_paid i.currency in
        let audit = publish env "chassis.audit" "billing.payment.succeeded" message in
        let activate = update_status_by_tenant_id env local.tenant_id "active" in
        let tell = publish_subscription_status env customer "active" none in
        let resume = when (local.status == "past_due") (activate >> tell) in
        Steps->> c.preorder insert (audit >> resume) (c.invoiced _) (
          Steps->> c.preorder audit resume
            (c.told "chassis.audit" "billing.payment.succeeded" message refl)
            (when-Steps c.preorder (local.status == "past_due") (activate >> tell) (
              Steps->> c.preorder activate tell (c.marked local.tenant_id "active")
                (publish_subscription_status-Steps customer "active" none))))

    mark_past_due-Steps :
        (customer : String) (found : Option Subscription)
        → Steps R (mark_past_due env customer found)
    unfolding mark_past_due
    mark_past_due-Steps customer none = c.preorder.reflexive
    mark_past_due-Steps customer (some local) =
        let mark = update_status_by_tenant_id env local.tenant_id "past_due" in
        let tell = publish_subscription_status env customer "past_due" none in
        Steps->> c.preorder mark tell (c.marked local.tenant_id "past_due")
          (publish_subscription_status-Steps customer "past_due" none)

    -- The processing of an event, whether it returns or throws.
    pub process_event-Steps :
        (now : ℕ) (body : EventBody)
        → ((x : StripeCustomer)
            → body ≡ customer_created x
            → Steps R (handle_customer_created env x))
        → Steps R (process_event env now body)
    unfolding process_event handle_subscription_created handle_subscription_updated
        handle_subscription_deleted handle_invoice_paid handle_invoice_payment_failed
    process_event-Steps now (subscription_created x) k =
        let link =
          link_stripe_subscription env x.customer x.id x.status (x.current_period_start * 1000)
            (x.current_period_end * 1000) in
        let tell = publish_subscription_status env x.customer x.status none in
        let message = audit_subscription_created x.id x.customer x.status in
        let audit = publish env "chassis.audit" "billing.subscription.created" message in
        Steps->> c.preorder link (tell >> audit) (c.linked x.customer x.id x.status _ _) (
          Steps->> c.preorder tell audit
            (publish_subscription_status-Steps x.customer x.status none)
            (c.told "chassis.audit" "billing.subscription.created" message refl))
    process_event-Steps now (subscription_updated x) k =
        let tell = publish_subscription_status env x.customer x.status (plan_code_of x) in
        Steps->> c.preorder (update_from_stripe env (on_updated x)) tell (c.updated (on_updated x))
          (publish_subscription_status-Steps x.customer x.status (plan_code_of x))
    process_event-Steps now (subscription_deleted x) k =
        let tell = publish_subscription_status env x.customer "canceled" none in
        Steps->> c.preorder (update_from_stripe env (on_deleted x)) tell (c.updated (on_deleted x))
          (publish_subscription_status-Steps x.customer "canceled" none)
    process_event-Steps now (invoice_paid i) k =
        let customer = or_else i.customer "" in
        Steps->>= c.preorder (find_one_subscription env (of_customer customer))
          (record_payment env now customer i) (find-Steps (of_customer customer))
          (record_payment-Steps now customer i)
    process_event-Steps now (invoice_payment_failed i) k =
        let customer = or_else i.customer "" in
        Steps->>= c.preorder (find_one_subscription env (of_customer customer))
          (mark_past_due env customer) (find-Steps (of_customer customer))
          (mark_past_due-Steps customer)
    process_event-Steps now (customer_created x) k = k x refl
    process_event-Steps now (other type) k = c.preorder.reflexive

    module _
        (stored : (x : WebhookEvent) (f : WebhookEvent → WebhookEvent)
          → Steps R (upsert_webhook env x f))
        (noted : (p : WebhookEvent → Bool) (f : WebhookEvent → WebhookEvent)
          → Steps R (update_webhooks env p f)) where
      store_and_process-Steps :
          (now : ℕ) (event : Event)
          → ((x : StripeCustomer)
              → event.body ≡ customer_created x
              → Steps R (handle_customer_created env x))
          → Steps R (store_and_process env now event)
      unfolding store_and_process process_stored
      store_and_process-Steps now event k =
          let mark : WebhookEvent → WebhookEvent =
            λ x. record x { processed = true; processed_at = some now } in
          let note : Exception → WebhookEvent → WebhookEvent =
            λ e x. record x { error_message = some (message_of e) } in
          let row : WebhookEvent = record {
            stripe_event_id = event.id;
            payload = event.body;
            processed = false;
            processed_at = none;
            error_message = none;
          } in
          let again : WebhookEvent → WebhookEvent =
            λ x. record x { payload = event.body; processed = false } in
          let run = process_event env now event.body in
          let done = update_webhooks env (has_event_id event.id) mark in
          let attempt =
            try_catch (run >> done) (λ e. update_webhooks env (has_event_id event.id) (note e)) in
          Steps->> c.preorder (upsert_webhook env row again) (attempt >> pure (received false))
            (stored row again)
            (Steps->> c.preorder attempt (pure (received false))
              (try_catch-Steps c.preorder (run >> done)
                (λ e. update_webhooks env (has_event_id event.id) (note e))
                (Steps->> c.preorder run done (process_event-Steps now event.body k)
                  (noted (has_event_id event.id) mark))
                (λ e. noted (has_event_id event.id) (note e)))
              c.preorder.reflexive)

      -- A delivery, whether it returns or throws.
      pub handle_webhook-Steps :
          (now : ℕ) (raw_body signature : String)
          → ((event : Event) (x : StripeCustomer)
              → env.construct_event raw_body signature (or_else env.webhook_secret "") ≡ ok event
              → event.body ≡ customer_created x
              → Steps R (handle_customer_created env x))
          → Steps R (handle_webhook env now raw_body signature)
      unfolding handle_webhook on_constructed on_event
      handle_webhook-Steps now raw_body signature k w =
          elim (Result-cases
            (env.construct_event raw_body signature (or_else env.webhook_secret ""))) [
              | inr (e, q) ↦ rw q (c.preorder.reflexive w)
              | inl (event, q) ↦
                  elim (Result-cases (env.webhooks.find_one (has_event_id event.id) w.webhooks)) [
                    | inr (e, f) ↦ rw (q, f) (c.preorder.reflexive w)
                    | inl (found, f) ↦ elim (Bool-cases (already_processed found)) [
                      | inl b ↦ rw (q, f, b) (c.preorder.reflexive w)
                      | inr b ↦
                          rw (q, f, b) (store_and_process-Steps now event (λ x e. k event x q e) w)
                    ]
                  ]
            ]
