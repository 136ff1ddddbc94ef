-- ===== src/System/Tests.antt =====
-- tenant-manager and billing-engine together at concrete messages.
use saas_chassis.Prelude.{◌≡◌, refl, inl, inr, none, some, [], ◌∷◌, ok, map}
use saas_chassis.External.Repository.Memory
use saas_chassis.External.Broker.{Envelope, memory_broker-IsBroker}
use saas_chassis.TenantManager.Entities as Tenants
use saas_chassis.TenantManager.State as TenantState
use saas_chassis.TenantManager.Plans.{find_by_code}
use saas_chassis.TenantManager.Tenants.{create_tenant}
use saas_chassis.TenantManager.Tenants.Lifecycle.{handle_billing_synced, handle_subscription_status}
use saas_chassis.TenantManager.Tenants.Lifecycle.Consistency.{same_tenant}
use saas_chassis.TenantManager.Tests as TenantTests
use saas_chassis.Billing.Entities as Billing
use saas_chassis.Billing.State as BillingState
use saas_chassis.Billing.Subscriptions.{create, update_status_by_tenant_id}
use saas_chassis.Billing.Webhook.{
  on_tenant_provisioned, handle_webhook, process_event, handle_invoice_payment_failed,
  publish_subscription_status,
}
use saas_chassis.Billing.Api.Own.{same_subscription}
use saas_chassis.Billing.Tests as BillingTests
use saas_chassis.System.{
  System, create_request, tenant_provisioned, billing_synced, subscription_status, webhook, Reach,
  here, next,
}
use saas_chassis.System.Customers.{Agrees, Reach-Agrees}

abbrev tm : TenantState.Env
tm = TenantTests.env

-- Every delivery of Stripe is a failed payment of the customer.
abbrev be : BillingState.Env
be = record BillingTests.env {
  construct_event = λ raw signature secret. ok (record {
    id = "evt_1";
    body = Billing.invoice_payment_failed (record {
      id = "in_1";
      customer = some "cus_1";
      amount_due = 5;
      amount_paid = 0;
      currency = "usd";
      hosted_invoice_url = none;
      invoice_pdf = none;
      period_start = 0;
      period_end = 0;
    });
  });
}

abbrev start : System tm be
start = record {
  tenants = record {
    tenants = [];
    plans = [];
    definitions = [];
    features = [];
    redis = [];
    publisher = some [];
    requests = [];
  };
  billing = record { subscriptions = []; invoices = []; webhooks = []; publisher = some [] };
}

abbrev request : Tenants.CreateTenantDto
request = record {
  name = "Zed";
  plan = none;
  admin_email = "z@x.io";
  phone = none;
  address = none;
  metadata = none;
  stripe_customer_id = none;
  trial_ends_at = none;
}

abbrev created : System tm be
created = record start { tenants = (create_tenant tm "0a1b" request "u1" start.tenants).1 }

abbrev provisioned : System tm be
provisioned = record created {
  billing =
      (on_tenant_provisioned be
        (record { tenant_id = "t9"; slug = "Zed-0a1b"; plan = "free"; admin_email = "z@x.io" })
        created.billing).1;
}

abbrev synced : System tm be
synced = record provisioned {
  tenants = (handle_billing_synced tm "t9" "cus_1" provisioned.tenants).1;
}

abbrev unpaid : System tm be
unpaid = record synced { billing = (handle_webhook be 100 "body" "sig" synced.billing).1 }

abbrev suspended : System tm be
suspended = record unpaid {
  tenants =
      (handle_subscription_status tm 101
        (record { tenant_id = "t9"; status = "past_due"; plan = none }) unpaid.tenants).1;
}

abbrev provisioning : Envelope Tenants.Message
provisioning = record {
  exchange = "chassis.tenants";
  routing_key = "tenant.provisioned";
  message = Tenants.tenant_provisioned "t9" "Zed-0a1b" "free" "z@x.io";
}

abbrev syncing : Envelope Billing.Message
syncing = record {
  exchange = "chassis.tenants";
  routing_key = "billing.synced";
  message = Billing.billing_synced "t9" "cus_1";
}

abbrev warning : Envelope Billing.Message
warning = record {
  exchange = "chassis.billing";
  routing_key = "subscription.status";
  message = Billing.subscription_status "t9" "past_due" none;
}

run : Reach tm be start suspended
unfolding create_tenant find_by_code on_tenant_provisioned create handle_webhook process_event
    handle_invoice_payment_failed update_status_by_tenant_id publish_subscription_status
run =
    next
      (next
        (next
          (next (next here (create_request "0a1b" "u1" request refl))
            (tenant_provisioned provisioning "t9" "Zed-0a1b" "free" "z@x.io" (inl refl) refl))
          (billing_synced syncing "t9" "cus_1" (inl refl) refl))
        (webhook 100 "body" "sig" (λ event x q e. cc)))
      (subscription_status warning 101 "t9" "past_due" none (inr (inl refl)) refl)

start-Agrees : Agrees tm be start
start-Agrees = record {
  unique = record { at = λ x y hx hy e. elim hx [ ] };
  announced = λ m id customer has is. elim has [ ];
  settled = record { at = λ x has. elim has [ ] };
}

Reach-Agrees_example : Agrees tm be suspended
Reach-Agrees_example =
    Reach-Agrees tm be (Memory.memory-IsTable same_tenant "t9")
      (Memory.memory-IsTable same_subscription "s9") memory_broker-IsBroker run start-Agrees

-- The tenant at the end of the run.
known_customer :
    map (λ (t : Tenants.Tenant). t.stripe_customer_id) suspended.tenants.tenants
    ≡ (some "cus_1" ∷ [])
unfolding create_tenant find_by_code on_tenant_provisioned create handle_webhook process_event
    handle_invoice_payment_failed update_status_by_tenant_id publish_subscription_status
    handle_billing_synced handle_subscription_status
known_customer = refl

known_status :
    map (λ (t : Tenants.Tenant). t.status) suspended.tenants.tenants
    ≡ (Tenants.TenantStatus.suspended ∷ [])
unfolding create_tenant find_by_code on_tenant_provisioned create handle_webhook process_event
    handle_invoice_payment_failed update_status_by_tenant_id publish_subscription_status
    handle_billing_synced handle_subscription_status
known_status = refl
