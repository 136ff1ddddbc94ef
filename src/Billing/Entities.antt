-- ===== src/Billing/Entities.antt =====
-- The entities of services/billing-engine, and the Stripe objects that its webhook reads. A
-- date is its number of milliseconds, a `decimal(12, 2)` its number of hundredths.
use saas_chassis.Prelude.{ℕ, String, Bool, Option}

-- 'active', 'trialing', 'past_due', 'canceled', 'unpaid' or 'incomplete'; a text here, since the
-- webhook casts whatever status Stripe sends.
abbrev pub SubscriptionStatus : Type 0
SubscriptionStatus = String

pub record Subscription : Type 0 where
  pub tenant_id : String
  pub stripe_customer_id : String
  pub stripe_subscription_id : Option String
  pub plan_code : String
  pub status : SubscriptionStatus
  pub current_period_start : Option ℕ
  pub current_period_end : Option ℕ
  pub cancel_at_period_end : Bool

pub data InvoiceStatus : Type 0 where
  draft open_ paid void uncollectible : InvoiceStatus

pub record Invoice : Type 0 where
  pub tenant_id : String
  pub stripe_invoice_id : String
  pub stripe_customer_id : String
  pub amount_due : ℕ
  pub amount_paid : ℕ
  pub currency : String
  pub status : InvoiceStatus
  pub invoice_url : Option String
  pub invoice_pdf : Option String
  pub period_start : Option ℕ
  pub period_end : Option ℕ
  pub paid_at : Option ℕ

-- Stripe's objects: amounts in cents, times in seconds. `plan` is the lookup key or else the id of
-- the price of the first item, if there is one.
pub record StripeSubscription : Type 0 where
  pub id : String
  pub customer : String
  pub status : SubscriptionStatus
  pub lookup_key : Option String
  pub price_id : Option String
  pub current_period_start : ℕ
  pub current_period_end : ℕ
  pub cancel_at_period_end : Bool

pub record StripeInvoice : Type 0 where
  pub id : String
  pub customer : Option String
  pub amount_due : ℕ
  pub amount_paid : ℕ
  pub currency : String
  pub hosted_invoice_url : Option String
  pub invoice_pdf : Option String
  pub period_start : ℕ
  pub period_end : ℕ

pub record StripeCustomer : Type 0 where
  pub id : String
  pub tenant_id : Option String

-- `event.type` with `event.data.object`.
pub data EventBody : Type 0 where
  subscription_created subscription_updated subscription_deleted : StripeSubscription → EventBody
  invoice_paid invoice_payment_failed : StripeInvoice → EventBody
  customer_created : StripeCustomer → EventBody
  other : String → EventBody

pub record Event : Type 0 where
  pub id : String
  pub body : EventBody

pub record WebhookEvent : Type 0 where
  pub stripe_event_id : String
  pub payload : EventBody
  pub processed : Bool
  pub processed_at : Option ℕ
  pub error_message : Option String

pub record TenantProvisionedEvent : Type 0 where
  pub tenant_id : String
  pub slug : String
  pub plan : String
  pub admin_email : String

pub data Message : Type 0 where
  billing_synced : (tenant_id stripe_customer_id : String) → Message
  subscription_status : (tenant_id status : String) → (plan : Option String) → Message
  audit_subscription_created : (subscription customer status : String) → Message
  audit_payment_succeeded :
      (invoice customer tenant_id : String) → (amount_paid : ℕ) → (currency : String) → Message
