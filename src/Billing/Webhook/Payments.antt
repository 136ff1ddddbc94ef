-- ===== src/Billing/Webhook/Payments.antt =====
-- services/billing-engine/src/modules/stripe/stripe-webhook.controller.ts: a payment that fails and
-- one that recovers the subscription.
use saas_chassis.Prelude.{
  ℕ, ◌≡◌, refl, ap, sym, ◌∙◌, inl, inr, String, Bool, Option, none, some, ok, eq_iff, Result-cases,
  Bool-cases, or_else, ◌>>◌,
}
use saas_chassis.External.Repository.{IsTable}
use saas_chassis.External.Broker.{Envelope, publish_message}
use saas_chassis.Billing.Entities.{
  Subscription, StripeInvoice, Invoice, Message, subscription_status, audit_payment_succeeded,
}
use saas_chassis.Billing.State.{Env, World}
use saas_chassis.Billing.Subscriptions.{of_customer, of_tenant, update_status_by_tenant_id}
use saas_chassis.Billing.Webhook.{
  publish_subscription_status, handle_invoice_payment_failed, handle_invoice_paid, paid_invoice,
}
use saas_chassis.Billing.Invoices.{upsert_from_stripe, of_stripe_invoice, merged}

-- The message of a subscription whose status changed.
abbrev told : (tenant_id status : String) → Envelope Message
told tenant_id status = record {
  exchange = "chassis.billing";
  routing_key = "subscription.status";
  message = subscription_status tenant_id status none;
}

-- The message of a payment.
abbrev thanked : (tenant_id customer : String) → StripeInvoice → Envelope Message
thanked tenant_id customer i = record {
  exchange = "chassis.audit";
  routing_key = "billing.payment.succeeded";
  message = audit_payment_succeeded i.id customer tenant_id i.amount_paid i.currency;
}

abbrev pub with_status : String → Subscription → Subscription
with_status status x = record x { status = status }

-- The subscriptions of a Stripe customer are those of one tenant.
pub record IsOwned (env : Env) (customer tenant_id : String) (s : env.subscriptions.Store)
    : Type 0 where
  pub owner :
      (x : Subscription)
      → env.subscriptions.Has s x
      → x.stripe_customer_id ≡ customer
      → x.tenant_id ≡ tenant_id

-- Each subscription of a Stripe customer is of the tenant, and has the status.
pub record IsMarked (env : Env) (customer tenant_id status : String) (s : env.subscriptions.Store)
    : Type 0 where
  pub at :
      (y : Subscription)
      → env.subscriptions.Has s y
      → y.stripe_customer_id ≡ customer
      → (y.tenant_id ≡ tenant_id) × (y.status ≡ status)

module _ (env : Env) {same : Subscription → Subscription → Bool}
    (t : IsTable same env.subscriptions) (customer tenant_id status : String)
    (s s' : env.subscriptions.Store)
    (marked : env.subscriptions.update (of_tenant tenant_id) (with_status status) s ≡ (ok tt, s'))
    (owned : IsOwned env customer tenant_id s) where
  -- A row of the customer after the mark has the tenant and the new status.
  pub marked-row :
      (y : Subscription)
      → env.subscriptions.Has s' y
      → y.stripe_customer_id ≡ customer
      → (y.tenant_id ≡ tenant_id) × (y.status ≡ status)
  marked-row y has c =
      let (x, old, e) =
        (t.update_has (of_tenant tenant_id) (with_status status) s s' y marked).0 has in
      elim (Bool-cases (of_tenant tenant_id x)) [
        | inl b ↦
            let z : y ≡ with_status status x = rw b at e in
            (
              ap (λ (v : Subscription). v.tenant_id) z ∙ (eq_iff x.tenant_id tenant_id).0 b,
              ap (λ (v : Subscription). v.status) z,
            )
        | inr b ↦
            let z : y ≡ x = rw b at e in
            let own =
              owned.owner x old (ap (λ (v : Subscription). v.stripe_customer_id) (sym z) ∙ c) in
            cc ((eq_iff x.tenant_id tenant_id).1 own)
      ]

  pub marked-IsOwned : IsOwned env customer tenant_id s'
  marked-IsOwned = record { owner = λ y has c. (marked-row y has c).0 }

  -- A query of the customer finds a row again.
  pub marked-found :
      (x : Subscription) (found : Option Subscription)
      → env.subscriptions.find_one (of_customer customer) s ≡ ok (some x)
      → env.subscriptions.find_one (of_customer customer) s' ≡ ok found
      → (y : Subscription) × (found ≡ some y) × (y.tenant_id ≡ tenant_id) × (y.status ≡ status)
  marked-found x (some y) q f =
      let (has, key) = t.find_one_some (of_customer customer) s' y f in
      let (own, new) = marked-row y has ((eq_iff y.stripe_customer_id customer).0 key) in
      (y, refl, own, new)
  marked-found x none q f =
      let (has, key) = t.find_one_some (of_customer customer) s x q in
      let own = owned.owner x has ((eq_iff x.stripe_customer_id customer).0 key) in
      let b = (eq_iff x.tenant_id tenant_id).1 own in
      let has' =
        (t.update_has (of_tenant tenant_id) (with_status status) s s' (with_status status x)
            marked).1
          (x, has, rw b refl) in
      cc (t.find_one_none (of_customer customer) s' (with_status status x) f has')

-- A record of an invoice writes invoices only.
upsert_from_stripe-invoices :
    (env : Env) (dto : Invoice) (w : World env)
    → (upsert_from_stripe env dto w).1
      ≡ record w { invoices = (upsert_from_stripe env dto w).1.invoices }
unfolding upsert_from_stripe
upsert_from_stripe-invoices env dto w =
    elim (Result-cases
      (env.invoices.find_one (of_stripe_invoice dto.stripe_invoice_id) w.invoices)) [
        | inr (e, q) ↦ rw q
        | inl (found, q) ↦ elim (Result-cases (env.invoices.save (merged dto found) w.invoices).0) [
          | inr (e, k) ↦ rw (q, k)
          | inl (_, k) ↦ rw (q, k)
        ]
      ]

module _ (env : Env) {same : Subscription → Subscription → Bool}
    (t : IsTable same env.subscriptions) (customer tenant_id : String) (x : Subscription) where
  -- What marking the subscriptions of a customer's tenant and publishing the status does, where it
  -- returns.
  mark_and_tell :
      (status : String) (w w' : World env)
      → IsOwned env customer tenant_id w.subscriptions
      → env.subscriptions.find_one (of_customer customer) w.subscriptions ≡ ok (some x)
      → (update_status_by_tenant_id env tenant_id status
            >> publish_subscription_status env customer status none)
          w
        ≡ (ok tt, w')
      → (env.subscriptions.update (of_tenant tenant_id) (with_status status) w.subscriptions
          ≡ (ok tt, w'.subscriptions))
        × (w'.publisher ≡ publish_message env.broker (told tenant_id status) w.publisher)
  unfolding update_status_by_tenant_id publish_subscription_status
  mark_and_tell status w w' owned q h =
      let done =
        env.subscriptions.update (of_tenant tenant_id) (with_status status) w.subscriptions in
      elim (Result-cases done.0) [
        | inr (e, k) ↦ cc (rw k at h)
        | inl (tt, k) ↦
            let marked : done ≡ (ok tt, done.1) = ap (λ o. (o, done.1)) k in
            elim (Result-cases (env.subscriptions.find_one (of_customer customer) done.1)) [
              | inr (e, f) ↦ cc (rw (k, f) at h)
              | inl (found, f) ↦
                  let (y, e, own, new) =
                    marked-found env t customer tenant_id status w.subscriptions done.1 marked owned
                      x found q f in
                  let after = rw (k, f, e) at h in
                  (
                    marked ∙ ap (λ u. (ok tt, u.1.subscriptions)) after,
                    ap (λ u. u.1.publisher) (sym after)
                        ∙ ap (λ id. publish_message env.broker (told id status) w.publisher) own,
                  )
            ]
      ]

  -- A failed payment that its handler has taken: the subscriptions of the customer's tenant are
  -- marked, and the message with the status is handed over.
  pub handle_invoice_payment_failed-ok :
      (i : StripeInvoice) (w w' : World env)
      → IsOwned env customer tenant_id w.subscriptions
      → or_else i.customer "" ≡ customer
      → env.subscriptions.find_one (of_customer customer) w.subscriptions ≡ ok (some x)
      → handle_invoice_payment_failed env i w ≡ (ok tt, w')
      → (env.subscriptions.update (of_tenant tenant_id) (with_status "past_due") w.subscriptions
          ≡ (ok tt, w'.subscriptions))
        × (w'.publisher ≡ publish_message env.broker (told tenant_id "past_due") w.publisher)
  unfolding handle_invoice_payment_failed
  handle_invoice_payment_failed-ok i w w' owned c q h =
      let (has, key) = t.find_one_some (of_customer customer) w.subscriptions x q in
      let own = owned.owner x has ((eq_iff x.stripe_customer_id customer).0 key) in
      mark_and_tell "past_due" w w' owned q (rw (c, q, own) at h)

  -- A payment of a subscription that is past due, which its handler has taken: the subscriptions of
  -- the customer's tenant are active, and the messages of the payment and of the status are handed
  -- over.
  pub handle_invoice_paid-ok :
      (now : ℕ) (i : StripeInvoice) (w w' : World env)
      → IsOwned env customer tenant_id w.subscriptions
      → or_else i.customer "" ≡ customer
      → env.subscriptions.find_one (of_customer customer) w.subscriptions ≡ ok (some x)
      → x.status ≡ "past_due"
      → handle_invoice_paid env now i w ≡ (ok tt, w')
      → (env.subscriptions.update (of_tenant tenant_id) (with_status "active") w.subscriptions
          ≡ (ok tt, w'.subscriptions))
        × (w'.publisher
            ≡ publish_message env.broker
                (told tenant_id "active")
                (publish_message env.broker (thanked tenant_id customer i) w.publisher))
  unfolding handle_invoice_paid
  handle_invoice_paid-ok now i w w' owned c q late h =
      let (has, key) = t.find_one_some (of_customer customer) w.subscriptions x q in
      let own = owned.owner x has ((eq_iff x.stripe_customer_id customer).0 key) in
      let recorded = upsert_from_stripe env (paid_invoice now tenant_id customer i) w in
      let kept = upsert_from_stripe-invoices env (paid_invoice now tenant_id customer i) w in
      elim (Result-cases recorded.0) [
        | inr (e, k) ↦ cc (rw (c, q, own, k) at h)
        | inl (y, k) ↦
            let told_w : World env = record w {
              invoices = recorded.1.invoices;
              publisher = publish_message env.broker (thanked tenant_id customer i) w.publisher;
            } in
            let arrears = (eq_iff x.status "past_due").1 late in
            mark_and_tell "active" told_w w' owned q (rw (c, q, own, k, kept, arrears) at h)
      ]

-- A payment whose handler returns has had an answer of the query for the customer.
pub handle_invoice_paid-queried :
    (env : Env) (now : ℕ) (i : StripeInvoice) (w w' : World env)
    → handle_invoice_paid env now i w ≡ (ok tt, w')
    → (o : Option Subscription) × (env.subscriptions.find_one
          (of_customer (or_else i.customer ""))
          w.subscriptions
        ≡ ok o)
unfolding handle_invoice_paid
handle_invoice_paid-queried env now i w w' h =
    elim (Result-cases
      (env.subscriptions.find_one (of_customer (or_else i.customer "")) w.subscriptions)) [
        | inl (o, q) ↦ (o, q)
        | inr (e, q) ↦ cc (rw q at h)
      ]
