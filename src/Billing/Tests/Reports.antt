-- ===== src/Billing/Tests/Reports.antt =====
-- The handlers and the revenue report of services/billing-engine at concrete inputs.
use saas_chassis.Prelude.{
  ◌≤◌, ◌≡◌, ◌⊎◌, refl, String, true, false, Option, none, some, List, [], ◌∷◌, ok, includes,
  or_else, length,
}
use saas_chassis.External.Repository.Memory
use saas_chassis.Http.{JwtPayload, ApiResponse, ok_response, paginated, limit_number, page_number}
use saas_chassis.Billing.Entities.{Subscription, Invoice}
use saas_chassis.Billing.State.{CheckoutParams}
use saas_chassis.Billing.Subscriptions.{find_by_tenant_id}
use saas_chassis.Billing.Invoices as Stored
use saas_chassis.Billing.Invoices.{upsert_from_stripe}
use saas_chassis.Billing.Invoices.Replay.{same_invoice}
use saas_chassis.Billing.Revenue.{RevenueSummary, monthly, format_of, get_revenue_summary}
use saas_chassis.Billing.Revenue.Sums.{total_of, get_revenue_summary-ok}
use saas_chassis.Billing.Api.{list_invoices, create_checkout}
use saas_chassis.Billing.Api.Own.{same_subscription, create_checkout-ok}
use saas_chassis.Billing.Tests.{env, world, report, invoiced}

abbrev summary : RevenueSummary
summary = record {
  total_revenue = 500;
  active_subscriptions = 0;
  mrr = 500;
  churn_rate = record { numerator = 0; denominator = 1 };
  arr_by_plan = ("basic", 6000) ∷ [];
  revenue_by_period = ("YYYY-MM", 500) ∷ [];
  subscriptions_by_plan = [];
}

summarised : get_revenue_summary env 1000 monthly invoiced ≡ (ok summary, invoiced)
unfolding get_revenue_summary format_of upsert_from_stripe
summarised = refl

get_revenue_summary-ok_example :
    (total_of [] ≡ 0)
    × (length summary.revenue_by_period ≤ 30)
    × (total_of summary.revenue_by_period ≤ 500)
get_revenue_summary-ok_example =
    get_revenue_summary-ok env (Memory.memory-IsListed same_invoice "i9") 1000 monthly invoiced
      invoiced summary summarised

abbrev manager : JwtPayload
manager = record {
  sub = "u1";
  email = "u@x.io";
  tenant_id = some "t1";
  is_platform_admin = false;
  roles = none;
  permissions = some ("billing:manage" ∷ []);
  is_impersonating = none;
  real_user_id = none;
}

abbrev one_page : ApiResponse (List Invoice)
one_page = paginated (report ∷ []) 1 1 20

listed : list_invoices env none (some "0") manager invoiced ≡ (ok one_page, invoiced)
unfolding list_invoices upsert_from_stripe Stored.find_by_tenant_id limit_number page_number
listed = refl

checked_out : create_checkout env "price_1" manager world ≡ (ok (ok_response "price_1"), world)
unfolding create_checkout find_by_tenant_id
checked_out = refl

create_checkout-ok_example :
    (tenant_id : String) × (x : Subscription) × (p : CheckoutParams) × (url : Option String)
    × (world ≡ world)
    × ((manager.is_platform_admin ≡ true)
        ⊎ (includes (or_else manager.permissions []) "billing:manage" ≡ true))
    × (manager.tenant_id ≡ some tenant_id)
    × env.subscriptions.Has world.subscriptions x
    × (x.tenant_id ≡ tenant_id)
    × (p.customer ≡ x.stripe_customer_id)
    × (p.tenant_id ≡ tenant_id)
    × (p.price ≡ "price_1")
    × (p.quantity ≡ 1)
    × (p.mode ≡ "subscription")
    × (env.create_checkout_session p ≡ ok url)
    × (some "price_1" ≡ some (or_else url ""))
create_checkout-ok_example =
    create_checkout-ok env manager world world (Memory.memory-IsTable same_subscription "s9")
      "price_1" (ok_response "price_1") checked_out
