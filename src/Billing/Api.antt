-- ===== src/Billing/Api.antt =====
-- services/billing-engine/src: the handlers of subscriptions/subscriptions.controller.ts,
-- invoices/invoices.controller.ts and revenue/revenue.controller.ts, with the guard on permissions
-- of common/guards/permissions.guard.ts and the sessions of stripe/stripe.service.ts. A handler
-- takes the user of the verified token.
pub mod Own
use saas_chassis.Prelude.{
  ℕ, String, Bool, true, false, ◌||◌, Option, none, some, List, [], ◌∷◌, Result, ok, err, Action,
  pure, ◌>>=◌, ◌>>◌, ◌==◌, unless, forbidden, all, includes, or_else, if◌then◌else◌, template,
  truthy, required,
}
use saas_chassis.Http.{JwtPayload, ApiResponse, ok_response, paginated, page_number, limit_number}
use saas_chassis.Billing.Entities.{Subscription, Invoice}
use saas_chassis.Billing.State.{Env, World, CheckoutParams}
use saas_chassis.Billing.Subscriptions.{find_by_tenant_id}
use saas_chassis.Billing.Invoices
use saas_chassis.Billing.Revenue.{
  Period, daily, monthly, yearly, RevenueSummary, get_revenue_summary,
}

-- `list.join(', ')`
abbrev pub join_comma : List String → String
join_comma [] = ""
join_comma (s ∷ []) = s
join_comma (s ∷ t ∷ r) = template (s ∷ ", " ∷ join_comma (t ∷ r) ∷ [])

-- `canActivate` of PermissionsGuard, for a route that requires a list of permissions.
unfoldable pub permissions_guard : List String → Option JwtPayload → Result Bool
permissions_guard [] user = ok true
permissions_guard (p ∷ ps) none = err (forbidden "No authenticated user")
permissions_guard (p ∷ ps) (some user) =
    if user.is_platform_admin
    then ok true
    else if all (includes (or_else user.permissions [])) (p ∷ ps)
    then ok true
    else err (forbidden (template ("Missing required permission(s): " ∷ join_comma (p ∷ ps) ∷ [])))

-- `if (!tenantId) throw …`
abbrev pub own_tenant : {W : Type 0} → JwtPayload → Action W String
own_tenant user =
    required (if truthy user.tenant_id then user.tenant_id else none)
      (forbidden "No tenant context in token")

-- The period of a query string that is one of the three, or else 'monthly'.
pub safe_period : Option String → Period
safe_period none = monthly
safe_period (some s) = if s == "daily" then daily else if s == "yearly" then yearly else monthly

module _ (env : Env) where
  -- StripeService.
  pub checkout_session : (customer tenant price : String) → Result String
  checkout_session customer tenant price =
      elim (env.create_checkout_session (record {
        customer = customer;
        mode = "subscription";
        payment_method_types = "card" ∷ [];
        tenant_id = tenant;
        success_url = template (env.success_url ∷ "?session_id={CHECKOUT_SESSION_ID}" ∷ []);
        cancel_url = env.cancel_url;
        price = price;
        quantity = 1;
      })) [ err e ↦ err e | ok url ↦ ok (or_else url "") ]

  pub customer_portal_session : (customer : String) → Result String
  customer_portal_session customer = env.create_portal_session customer env.portal_return_url

  -- A guard or a call of Stripe: it does not change the state of the service.
  abbrev pub lift : {A : Type 0} → Result A → Action (World env) A
  lift r w = (r, w)

  unfoldable pub get_subscription : JwtPayload → Action (World env) (ApiResponse Subscription)
  unfolding permissions_guard
  get_subscription user = do
    lift (permissions_guard ("billing:read" ∷ []) (some user))
    tenant_id ← own_tenant user
    subscription ← find_by_tenant_id env tenant_id
    pure (ok_response subscription)

  -- The answers `{ url }` of the next two are their one field.
  unfoldable pub create_checkout :
      (price_id : String) → JwtPayload → Action (World env) (ApiResponse String)
  unfolding permissions_guard checkout_session
  create_checkout price_id user = do
    lift (permissions_guard ("billing:manage" ∷ []) (some user))
    tenant_id ← own_tenant user
    subscription ← find_by_tenant_id env tenant_id
    url ← lift (checkout_session subscription.stripe_customer_id tenant_id price_id)
    pure (ok_response url)

  unfoldable pub create_portal : JwtPayload → Action (World env) (ApiResponse String)
  unfolding permissions_guard customer_portal_session
  create_portal user = do
    lift (permissions_guard ("billing:manage" ∷ []) (some user))
    tenant_id ← own_tenant user
    subscription ← find_by_tenant_id env tenant_id
    url ← lift (customer_portal_session subscription.stripe_customer_id)
    pure (ok_response url)

  unfoldable pub list_invoices :
      (page limit : Option String) → JwtPayload → Action (World env) (ApiResponse (List Invoice))
  list_invoices page limit user = do
    tenant_id ← own_tenant user
    result ← Invoices.find_by_tenant_id env tenant_id (page_number page) (limit_number limit)
    pure (paginated result.items result.total result.page result.limit)

  pub get_revenue :
      (now : ℕ)
      → (period : Option String) → JwtPayload
      → Action (World env) (ApiResponse RevenueSummary)
  unfolding safe_period
  get_revenue now period user = do
    unless user.is_platform_admin (forbidden "Revenue analytics requires platform admin")
    summary ← get_revenue_summary env now (safe_period period)
    pure (ok_response summary)
