-- ===== src/Billing/Api/Own.antt =====
-- services/billing-engine/src/modules: what a user sees and pays is the user's own tenant's.
use saas_chassis.Prelude.{
  template, ◌∷◌, ◌≤◌, ◌≡◌, refl, ◌⊎◌, inl, inr, String, Bool, true, Option, none, some, List, [],
  ok, arith, ◌==◌, ◌-◌, ◌*◌, eq_iff, Elem, length, elem-take, elem-drop, length-take, drop,
  includes, or_else, Result-cases, Bool-cases, Option-cases,
}
use saas_chassis.External.Repository.{descending, IsTable, IsPaged}
use saas_chassis.Http.{JwtPayload, ApiResponse, page_number, limit_number}
use saas_chassis.Http.Pages.{query_numbers-bounds}
use saas_chassis.Billing.Entities.{Subscription, Invoice}
use saas_chassis.Billing.State.{Env, World, CheckoutParams}
use saas_chassis.Billing.Subscriptions.{find_by_tenant_id, of_tenant}
use saas_chassis.Billing.Invoices
use saas_chassis.Billing.Api.{create_checkout, checkout_session, permissions_guard, list_invoices}

-- The unique key of subscriptions.
abbrev pub same_subscription : Subscription → Subscription → Bool
same_subscription x y = x.tenant_id == y.tenant_id

module _ (env : Env) (user : JwtPayload) (w w' : World env) where
  -- A list of invoices that is returned has at most 100, all of them stored invoices of the tenant
  -- of the user's token.
  list_invoices-ok :
      IsPaged env.invoices (("createdAt", descending) ∷ [])
      → (page limit : Option String) (r : ApiResponse (List Invoice))
      → list_invoices env page limit user w ≡ (ok r, w')
      → (tenant_id : String) × (xs : List Invoice) × (user.tenant_id ≡ some tenant_id)
        × (r.payload ≡ some xs)
        × (length xs ≤ 100)
        × ((x : Invoice) → Elem x xs → env.invoices.Has w.invoices x × (x.tenant_id ≡ tenant_id))
  unfolding list_invoices Invoices.find_by_tenant_id
  list_invoices-ok paged page limit r h = elim (Option-cases user.tenant_id) [
    | inl e ↦ ground arith
    | inr (tenant_id, e) ↦
        let p = λ (x : Invoice). x.tenant_id == tenant_id in
        let n = limit_number limit in
        let skip = (page_number page - 1) * n in
        let bounds = query_numbers-bounds page limit in
        elim (Result-cases
          (env.invoices.find_and_count p (("createdAt", descending) ∷ []) skip n w.invoices)) [
            | inr (e', q) ↦ ground arith
            | inl ((xs, total), q) ↦
                let (rows, _) = paged.page_of p skip n w.invoices xs total q in
                (
                  tenant_id,
                  xs,
                  e,
                  ground arith,
                  rw rows (
                      omega
                        (arith, length-take n (drop skip (paged.listing p w.invoices)), bounds.2)),
                  λ x m.
                      let all = elem-drop skip _ x (elem-take n _ x (rw rows at m)) in
                      let (has, own) = (paged.listing_has p w.invoices x).0 all in
                      (has, (eq_iff x.tenant_id tenant_id).0 own),
                )
          ]
  ]

  create_checkout-allowed :
      (price_id : String) (r : ApiResponse String)
      → create_checkout env price_id user w ≡ (ok r, w')
      → (user.is_platform_admin ≡ true)
        ⊎ (includes (or_else user.permissions []) "billing:manage" ≡ true)
  unfolding create_checkout permissions_guard
  create_checkout-allowed price_id r h = elim (Bool-cases user.is_platform_admin) [
    | inl admin ↦ inl admin
    | inr plain ↦ elim (Bool-cases (includes (or_else user.permissions []) "billing:manage")) [
      | inl has ↦ inr has
      | inr lacks ↦ cc (rw (plain, lacks) at h)
    ]
  ]

  -- A checkout that is returned was asked for by a platform administrator or a user with the
  -- permission billing:manage, and its URL, or the empty text, is that of a session of Stripe for
  -- one of the price that was asked for, in the mode of a subscription, for the Stripe customer of
  -- the stored subscription of the user's own tenant and with that tenant in its data.
  pub create_checkout-ok :
      IsTable same_subscription env.subscriptions
      → (price_id : String) (r : ApiResponse String)
      → create_checkout env price_id user w ≡ (ok r, w')
      → (tenant_id : String) × (x : Subscription) × (p : CheckoutParams) × (url : Option String)
        × (w' ≡ w)
        × ((user.is_platform_admin ≡ true)
            ⊎ (includes (or_else user.permissions []) "billing:manage" ≡ true))
        × (user.tenant_id ≡ some tenant_id)
        × env.subscriptions.Has w.subscriptions x
        × (x.tenant_id ≡ tenant_id)
        × (p.customer ≡ x.stripe_customer_id)
        × (p.tenant_id ≡ tenant_id)
        × (p.price ≡ price_id)
        × (p.quantity ≡ 1)
        × (p.mode ≡ "subscription")
        × (env.create_checkout_session p ≡ ok url)
        × (r.payload ≡ some (or_else url ""))
  unfolding create_checkout find_by_tenant_id checkout_session
  create_checkout-ok t price_id r h =
      let allowed = create_checkout-allowed price_id r h in
      elim (Option-cases user.tenant_id) [
        | inl e ↦ ground arith
        | inr (tenant_id, e) ↦
            elim (Result-cases (env.subscriptions.find_one (of_tenant tenant_id) w.subscriptions)) [
              | inr (e', q) ↦ ground arith
              | inl (none, q) ↦ ground arith
              | inl (some x, q) ↦
                  let p : CheckoutParams = record {
                    customer = x.stripe_customer_id;
                    mode = "subscription";
                    payment_method_types = "card" ∷ [];
                    tenant_id = tenant_id;
                    success_url =
                        template (env.success_url ∷ "?session_id={CHECKOUT_SESSION_ID}" ∷ []);
                    cancel_url = env.cancel_url;
                    price = price_id;
                    quantity = 1;
                  } in
                  elim (Result-cases (env.create_checkout_session p)) [
                    | inr (e', k) ↦ ground arith
                    | inl (url, k) ↦
                        let (has, own) =
                          t.find_one_some (of_tenant tenant_id) w.subscriptions x q in
                        let key = (eq_iff x.tenant_id tenant_id).0 own in
                        let answer : r.payload ≡ some (or_else url "") = ground arith in
                        (
                          tenant_id,
                          x,
                          p,
                          url,
                          ground arith,
                          allowed,
                          e,
                          has,
                          key,
                          refl,
                          refl,
                          refl,
                          refl,
                          refl,
                          k,
                          answer,
                        )
                  ]
            ]
      ]
