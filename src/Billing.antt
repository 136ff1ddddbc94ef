-- ===== src/Billing.antt =====
-- services/billing-engine: subscriptions, invoices and the Stripe webhook.
pub mod Context
pub mod Tests
pub mod Entities
pub mod State
pub mod Subscriptions
pub mod Invoices
pub mod Webhook
pub mod Revenue
pub mod Api
