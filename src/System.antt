-- ===== src/System.antt =====
-- tenant-manager and billing-engine together: requests that create tenants, and the messages that
-- one service has published and a consumer of the other handles, again and again and in any order
-- (services/billing-engine/src/modules/stripe/stripe-webhook.controller.ts, `onTenantProvisioned`;
-- services/tenant-manager/src/modules/messaging/billing-events.controller.ts).
pub mod Customers
mod Tests
use saas_chassis.Prelude.{ℕ, String, ◌≡◌, ◌≢◌, Option, none, some, ok, or_else, Elem}
use saas_chassis.External.Broker.{Envelope, sent_by}
use saas_chassis.TenantManager.Entities as Tenants
use saas_chassis.TenantManager.State as TenantState
use saas_chassis.TenantManager.Tenants.{create_tenant}
use saas_chassis.TenantManager.Tenants.Lifecycle.{handle_billing_synced, handle_subscription_status}
use saas_chassis.Billing.Entities as Billing
use saas_chassis.Billing.State as BillingState
use saas_chassis.Billing.Webhook.{on_tenant_provisioned, handle_webhook}

module _ (tm : TenantState.Env) (be : BillingState.Env) where
  pub record System : Type 0 where
    pub tenants : TenantState.World tm
    pub billing : BillingState.World be

  -- What the two services have handed to their channels.
  abbrev pub ToldBilling : System → Envelope Tenants.Message → Type 0
  ToldBilling s e = Elem e (sent_by tm.broker s.tenants.publisher)

  abbrev pub ToldTenants : System → Envelope Billing.Message → Type 0
  ToldTenants s e = Elem e (sent_by be.broker s.billing.publisher)

  -- A request whose body has no Stripe customer (a `stripeCustomerId` in it, which the DTO accepts,
  -- would be a customer that the billing engine does not know), or the delivery of a published
  -- message to the handler for it, or a call of the webhook, but with no event `customer.created`,
  -- which may give a subscription another customer. A delivery does not take the message away: it
  -- may come again. Nor has it to come at all, as where the routing of a deployment, which is not in
  -- the repository, brings no message to a handler.
  pub data Step (s : System) : System → Type 0 where
    create_request :
        (uuid user : String) (dto : Tenants.CreateTenantDto)
        → dto.stripe_customer_id ≡ none
        → Step s (record s { tenants = (create_tenant tm uuid dto user s.tenants).1 })
    tenant_provisioned :
        (e : Envelope Tenants.Message) (id slug plan email : String)
        → ToldBilling s e
        → e.message ≡ Tenants.tenant_provisioned id slug plan email
        → Step s (record s {
          billing =
              (on_tenant_provisioned be
                (record { tenant_id = id; slug = slug; plan = plan; admin_email = email })
                s.billing).1;
        })
    billing_synced :
        (e : Envelope Billing.Message) (id customer : String)
        → ToldTenants s e
        → e.message ≡ Billing.billing_synced id customer
        → Step s (record s { tenants = (handle_billing_synced tm id customer s.tenants).1 })
    subscription_status :
        (e : Envelope Billing.Message) (now : ℕ) (id status : String) (plan : Option String)
        → ToldTenants s e
        → e.message ≡ Billing.subscription_status id status plan
        → Step s (record s {
          tenants =
              (handle_subscription_status tm now
                (record { tenant_id = id; status = status; plan = plan })
                s.tenants).1;
        })
    webhook :
        (now : ℕ) (raw_body signature : String)
        → ((event : Billing.Event) (x : Billing.StripeCustomer)
            → be.construct_event raw_body signature (or_else be.webhook_secret "") ≡ ok event
            → event.body ≢ Billing.customer_created x)
        → Step s (record s { billing = (handle_webhook be now raw_body signature s.billing).1 })

  pub data Reach (s : System) : System → Type 0 where
    here : Reach s s
    next : {t u : System} → Reach s t → Step t u → Reach s u
