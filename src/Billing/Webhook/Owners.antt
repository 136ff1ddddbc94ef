-- ===== src/Billing/Webhook/Owners.antt =====
-- services/billing-engine/src/modules/stripe/stripe-webhook.controller.ts: the tenant and the Stripe
-- customer of a subscription, and what the webhook announces.
use saas_chassis.Prelude.{
  ℕ, ◌≡◌, ◌≢◌, true, or_else, refl, ap, ◌∙◌, inl, inr, String, none, some, ok, Elem, Result-cases,
  arith, eq_iff, IsPreorder, Steps,
}
use saas_chassis.External.Repository.{IsTable}
use saas_chassis.External.Repository.Continuity.{
  Continues, Continues-IsPreorder, save_found-Continues, update-Continues,
}
use saas_chassis.External.Broker.{Envelope, IsBroker, sent_by, publish_message-sent}
use saas_chassis.Billing.Entities.{
  Subscription, StripeCustomer, Event, Message, billing_synced, customer_created,
}
use saas_chassis.Billing.State.{Env, World}
use saas_chassis.Billing.Subscriptions.{
  of_customer, of_stripe, of_tenant, updated, linked, update_from_stripe, link_stripe_subscription,
  update_status_by_tenant_id, UpdateSubscriptionFromStripeDto,
}
use saas_chassis.Billing.Invoices.{upsert_from_stripe, of_stripe_invoice}
use saas_chassis.Billing.Webhook.{handle_webhook}
use saas_chassis.Billing.Webhook.Steps.{Covers, is_announcement, handle_webhook-Steps}
use saas_chassis.Billing.Api.Own.{same_subscription}

-- The subscription `y` has the tenant and the customer of `x`.
pub record HasOwner (x y : Subscription) : Type 0 where
  pub tenant : y.tenant_id ≡ x.tenant_id
  pub customer : y.stripe_customer_id ≡ x.stripe_customer_id

pub HasOwner-IsPreorder : IsPreorder HasOwner
HasOwner-IsPreorder = record {
  reflexive = λ x. record { tenant = refl; customer = refl };
  transitive =
      λ x y z p q. record { tenant = q.tenant ∙ p.tenant; customer = q.customer ∙ p.customer };
}

pub same_subscription_sym :
    (x y : Subscription) → same_subscription x y ≡ true → same_subscription y x ≡ true
same_subscription_sym x y h =
    ground (arith, eq_iff x.tenant_id y.tenant_id, eq_iff y.tenant_id x.tenant_id)

module _ (env : Env) where
  -- No subscription is lost or gets another tenant or customer, and no customer is announced.
  pub record KeepsOwners (w v : World env) : Type 0 where
    pub subscriptions :
        Continues same_subscription env.subscriptions HasOwner w.subscriptions v.subscriptions
    pub announced :
        (m : Envelope Message) (id customer : String)
        → m.message ≡ billing_synced id customer
        → Elem m (sent_by env.broker v.publisher)
        → Elem m (sent_by env.broker w.publisher)

  stores : IsPreorder (Continues same_subscription env.subscriptions HasOwner)
  stores = Continues-IsPreorder same_subscription env.subscriptions HasOwner HasOwner-IsPreorder

  KeepsOwners-IsPreorder : IsPreorder KeepsOwners
  KeepsOwners-IsPreorder = record {
    reflexive = λ w. record {
      subscriptions = stores.reflexive w.subscriptions;
      announced = λ m id customer e has. has;
    };
    transitive = λ u v w p q. record {
      subscriptions =
          stores.transitive u.subscriptions v.subscriptions w.subscriptions p.subscriptions
            q.subscriptions;
      announced =
          λ m id customer e has. p.announced m id customer e (q.announced m id customer e has);
    };
  }

  -- A step that leaves the publisher alone.
  silent :
      (w v : World env)
      → Continues same_subscription env.subscriptions HasOwner w.subscriptions v.subscriptions
      → v.publisher ≡ w.publisher
      → KeepsOwners w v
  silent w v k e = record { subscriptions = k; announced = λ m id customer is has. rw e at has }

  unchanged :
      (w v : World env)
      → v.subscriptions ≡ w.subscriptions
      → v.publisher ≡ w.publisher
      → KeepsOwners w v
  unchanged w v k e = silent w v (rw k (stores.reflexive w.subscriptions)) e

module _ (env : Env) (t : IsTable same_subscription env.subscriptions)
    (law : IsBroker env.broker) where
  update_from_stripe-KeepsOwners :
      (dto : UpdateSubscriptionFromStripeDto) → Steps (KeepsOwners env) (update_from_stripe env dto)
  unfolding update_from_stripe
  update_from_stripe-KeepsOwners dto w =
      let p = of_stripe dto.stripe_subscription_id in
      let v = (update_from_stripe env dto w).1 in
      elim (Result-cases (env.subscriptions.find_one p w.subscriptions)) [
        | inr (e, q) ↦ unchanged env w v (ground arith) (ground arith)
        | inl (none, q) ↦ unchanged env w v (ground arith) (ground arith)
        | inl (some x, q) ↦
            let saved : v.subscriptions
                ≡ (env.subscriptions.save (updated dto x) w.subscriptions).1 =
              ground arith in
            silent env w v
              (rw saved (
                save_found-Continues t HasOwner-IsPreorder same_subscription_sym p x (updated dto x)
                  w.subscriptions q (record { tenant = refl; customer = refl }) (λ y own. own)))
              (ground arith)
      ]

  link_stripe_subscription-KeepsOwners :
      (customer id status : String) (from until : ℕ)
      → Steps (KeepsOwners env) (link_stripe_subscription env customer id status from until)
  unfolding link_stripe_subscription
  link_stripe_subscription-KeepsOwners customer id status from until w =
      let p = of_customer customer in
      let v = (link_stripe_subscription env customer id status from until w).1 in
      elim (Result-cases (env.subscriptions.find_one p w.subscriptions)) [
        | inr (e, q) ↦ unchanged env w v (ground arith) (ground arith)
        | inl (none, q) ↦ unchanged env w v (ground arith) (ground arith)
        | inl (some x, q) ↦
            let y = linked env id status from until x in
            let saved : v.subscriptions ≡ (env.subscriptions.save y w.subscriptions).1 =
              ground arith in
            silent env w v
              (rw saved (
                save_found-Continues t HasOwner-IsPreorder same_subscription_sym p x y
                  w.subscriptions q (record { tenant = refl; customer = refl }) (λ z own. own)))
              (ground arith)
      ]

  covers : Covers env (KeepsOwners env)
  unfolding update_status_by_tenant_id upsert_from_stripe
  covers = record {
    preorder = KeepsOwners-IsPreorder env;
    updated = update_from_stripe-KeepsOwners;
    linked = link_stripe_subscription-KeepsOwners;
    marked = λ tenant_id status w.
        silent env w _
          (update-Continues t HasOwner-IsPreorder (of_tenant tenant_id)
            (λ x. record x { status = status }) w.subscriptions
            (λ x. record { tenant = refl; customer = refl }) (λ x y. refl) (λ x y. refl))
          refl;
    invoiced = λ dto w.
        elim (Result-cases
          (env.invoices.find_one (of_stripe_invoice dto.stripe_invoice_id) w.invoices)) [
            | inr (e, q) ↦ unchanged env w _ (ground arith) (ground arith)
            | inl (found, q) ↦ unchanged env w _ (ground arith) (ground arith)
          ];
    told = λ exchange key m plain w. record {
      subscriptions = (stores env).reflexive w.subscriptions;
      announced = λ n id customer is has.
          elim (publish_message-sent env.broker law _ n w.publisher has) [
            | inl e ↦
                let own : m ≡ billing_synced id customer = cc (ap (λ u. u.message) e) in
                cc (ap is_announcement own)
            | inr old ↦ old
          ];
    };
  }

  -- A delivery of an event other than the creation of a customer, whether it returns or throws.
  pub handle_webhook-KeepsOwners :
      (now : ℕ) (raw_body signature : String)
      → ((event : Event) (x : StripeCustomer)
          → env.construct_event raw_body signature (or_else env.webhook_secret "") ≡ ok event
          → event.body ≢ customer_created x)
      → Steps (KeepsOwners env) (handle_webhook env now raw_body signature)
  handle_webhook-KeepsOwners now raw_body signature k =
      handle_webhook-Steps env (KeepsOwners env) covers (λ x f w. unchanged env w _ refl refl)
        (λ p f w. unchanged env w _ refl refl) now raw_body signature
        (λ event x q e. absurd (k event x q e))
