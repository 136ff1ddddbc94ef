-- ===== src/Billing/State.antt =====
-- What billing-engine is built over, and its state: three tables and the publisher's channel.
use saas_chassis.Prelude.{ℕ, String, List, Bool, Option, Result, ok, Action}
use saas_chassis.External.Repository.{Direction, Repository}
use saas_chassis.External.Broker.{Broker, Publisher, publish_message}
use saas_chassis.Billing.Entities.{Subscription, Invoice, WebhookEvent, Event, Message}

-- `construct_event raw_body signature secret` and `create_customer` are calls of the Stripe SDK;
-- the second has the email, the name and the tenant of a new customer, and gives its id.
-- `create_checkout_session` gives the URL of the session, if it has one. The three URLs are
-- configuration. `to_char` and `month_of`, which is DATE_TRUNC('month', …), are functions of
-- PostgreSQL, and `period_after a b` says that its descending order of texts has `a` before `b`.
-- `created_at` and `updated_at` are the two columns that TypeORM keeps up itself.
pub record CheckoutParams : Type 0 where
  pub customer : String
  pub mode : String
  pub payment_method_types : List String
  pub tenant_id : String
  pub success_url : String
  pub cancel_url : String
  pub price : String
  pub quantity : ℕ

pub record Env : Type 1 where
  pub subscriptions : Repository Subscription
  pub invoices : Repository Invoice
  pub webhooks : Repository WebhookEvent
  pub broker : Broker Message
  pub construct_event : String → String → String → Result Event
  pub create_customer : String → String → String → Result String
  pub webhook_secret : Option String
  pub create_checkout_session : CheckoutParams → Result (Option String)
  pub create_portal_session : (customer return_url : String) → Result String
  pub success_url : String
  pub cancel_url : String
  pub portal_return_url : String
  pub to_char : (date : ℕ) → (format : String) → String
  pub month_of : (date : ℕ) → ℕ
  pub period_after : String → String → Bool
  pub created_at : subscriptions.Store → Subscription → ℕ
  pub updated_at : subscriptions.Store → Subscription → ℕ

pub record World (env : Env) : Type 0 where
  pub subscriptions : env.subscriptions.Store
  pub invoices : env.invoices.Store
  pub webhooks : env.webhooks.Store
  pub publisher : Publisher env.broker

module _ (env : Env) where
  abbrev pub find_one_subscription :
      (Subscription → Bool) → Action (World env) (Option Subscription)
  find_one_subscription p w = (env.subscriptions.find_one p w.subscriptions, w)

  abbrev pub find_subscriptions : (Subscription → Bool) → Action (World env) (List Subscription)
  find_subscriptions p w = (env.subscriptions.find p w.subscriptions, w)

  abbrev pub save_subscription : Subscription → Action (World env) (Unit {0})
  save_subscription x w =
      let (r, s) = env.subscriptions.save x w.subscriptions in (r, record w { subscriptions = s })

  abbrev pub update_subscriptions :
      (Subscription → Bool) → (Subscription → Subscription) → Action (World env) (Unit {0})
  update_subscriptions p f w =
      let (r, s) = env.subscriptions.update p f w.subscriptions in
      (r, record w { subscriptions = s })

  abbrev pub find_one_invoice : (Invoice → Bool) → Action (World env) (Option Invoice)
  find_one_invoice p w = (env.invoices.find_one p w.invoices, w)

  abbrev pub find_invoices : (Invoice → Bool) → Action (World env) (List Invoice)
  find_invoices p w = (env.invoices.find p w.invoices, w)

  abbrev pub find_and_count_invoices :
      (Invoice → Bool)
      → (order : List (String × Direction)) → (skip take : ℕ)
      → Action (World env) (List Invoice × ℕ)
  find_and_count_invoices p order skip take w =
      (env.invoices.find_and_count p order skip take w.invoices, w)

  abbrev pub save_invoice : Invoice → Action (World env) (Unit {0})
  save_invoice x w = let (r, s) = env.invoices.save x w.invoices in (r, record w { invoices = s })

  abbrev pub find_one_webhook : (WebhookEvent → Bool) → Action (World env) (Option WebhookEvent)
  find_one_webhook p w = (env.webhooks.find_one p w.webhooks, w)

  abbrev pub upsert_webhook :
      WebhookEvent → (WebhookEvent → WebhookEvent) → Action (World env) (Unit {0})
  upsert_webhook x f w =
      let (r, s) = env.webhooks.upsert x f w.webhooks in (r, record w { webhooks = s })

  abbrev pub update_webhooks :
      (WebhookEvent → Bool) → (WebhookEvent → WebhookEvent) → Action (World env) (Unit {0})
  update_webhooks p f w =
      let (r, s) = env.webhooks.update p f w.webhooks in (r, record w { webhooks = s })

  abbrev pub publish : (exchange key : String) → Message → Action (World env) (Unit {0})
  publish exchange key m w = (
    ok tt,
    record w {
      publisher =
          publish_message env.broker
            (record { exchange = exchange; routing_key = key; message = m }) w.publisher;
    },
  )
