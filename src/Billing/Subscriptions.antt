-- ===== src/Billing/Subscriptions.antt =====
-- services/billing-engine/src/modules/subscriptions/subscriptions.service.ts
use saas_chassis.Prelude.{
  ℕ, String, Bool, false, Option, none, some, [], ◌∷◌, Action, pure, throw, ◌>>=◌, ◌>>◌, ◌==◌,
  required, not_found, conflict, template, or_else, same_text,
}
use saas_chassis.Billing.Entities.{Subscription, SubscriptionStatus}
use saas_chassis.Billing.State.{
  Env, World, find_one_subscription, save_subscription, update_subscriptions,
}

pub record CreateSubscriptionDto : Type 0 where
  pub tenant_id : String
  pub stripe_customer_id : String
  pub plan_code : String
  pub status : Option SubscriptionStatus
  pub stripe_subscription_id : Option String

pub record UpdateSubscriptionFromStripeDto : Type 0 where
  pub stripe_subscription_id : String
  pub plan_code : Option String
  pub status : Option SubscriptionStatus
  pub current_period_start : Option ℕ
  pub current_period_end : Option ℕ
  pub cancel_at_period_end : Option Bool

abbrev pub of_tenant : String → Subscription → Bool
of_tenant id x = x.tenant_id == id

abbrev pub of_customer : String → Subscription → Bool
of_customer id x = x.stripe_customer_id == id

abbrev pub of_stripe : String → Subscription → Bool
of_stripe id x = same_text x.stripe_subscription_id (some id)

-- `if (dto.field !== undefined) sub.field = dto.field`, on a nullable field.
abbrev pub assign_date : Option ℕ → Option ℕ → Option ℕ
assign_date none old = old
assign_date (some new) old = some new

abbrev pub updated : UpdateSubscriptionFromStripeDto → Subscription → Subscription
updated dto x = record x {
  plan_code = or_else dto.plan_code x.plan_code;
  status = or_else dto.status x.status;
  current_period_start = assign_date dto.current_period_start x.current_period_start;
  current_period_end = assign_date dto.current_period_end x.current_period_end;
  cancel_at_period_end = or_else dto.cancel_at_period_end x.cancel_at_period_end;
}

abbrev pub new_subscription : CreateSubscriptionDto → Subscription
new_subscription dto = record {
  tenant_id = dto.tenant_id;
  stripe_customer_id = dto.stripe_customer_id;
  stripe_subscription_id = dto.stripe_subscription_id;
  plan_code = dto.plan_code;
  status = or_else dto.status "trialing";
  current_period_start = none;
  current_period_end = none;
  cancel_at_period_end = false;
}

module _ (env : Env) where
  unfoldable pub find_by_tenant_id : String → Action (World env) Subscription
  find_by_tenant_id id = do
    found ← find_one_subscription env (of_tenant id)
    required found (not_found (template ("No subscription found for tenant " ∷ id ∷ [])))

  abbrev pub find_by_stripe_customer_id : String → Action (World env) (Option Subscription)
  find_by_stripe_customer_id id = find_one_subscription env (of_customer id)

  create_new : CreateSubscriptionDto → Option Subscription → Action (World env) Subscription
  create_new dto (some existing) =
      throw (conflict (template ("Subscription already exists for tenant " ∷ dto.tenant_id ∷ [])))
  create_new dto none = do save_subscription env (new_subscription dto); pure (new_subscription dto)

  unfoldable pub create : CreateSubscriptionDto → Action (World env) Subscription
  unfolding create_new
  create dto = do
    existing ← find_one_subscription env (of_tenant dto.tenant_id)
    create_new dto existing

  save_updated :
      UpdateSubscriptionFromStripeDto → Option Subscription → Action (World env) (Unit {0})
  save_updated dto none = pure tt
  save_updated dto (some x) = save_subscription env (updated dto x)

  unfoldable pub update_from_stripe :
      UpdateSubscriptionFromStripeDto → Action (World env) (Unit {0})
  unfolding save_updated
  update_from_stripe dto = do
    found ← find_one_subscription env (of_stripe dto.stripe_subscription_id)
    save_updated dto found

  abbrev pub linked : String → SubscriptionStatus → (from until : ℕ) → Subscription → Subscription
  linked id status from until x = record x {
    stripe_subscription_id = some id;
    status = status;
    current_period_start = some from;
    current_period_end = some until;
  }

  save_linked :
      String
      → SubscriptionStatus
      → (from until : ℕ) → Option Subscription
      → Action (World env) (Unit {0})
  save_linked id status from until none = pure tt
  save_linked id status from until (some x) = save_subscription env (linked id status from until x)

  unfoldable pub link_stripe_subscription :
      (customer id : String) → SubscriptionStatus → (from until : ℕ) → Action (World env) (Unit {0})
  unfolding save_linked
  link_stripe_subscription customer id status from until = do
    found ← find_one_subscription env (of_customer customer)
    save_linked id status from until found

  unfoldable pub update_status_by_tenant_id :
      String → SubscriptionStatus → Action (World env) (Unit {0})
  update_status_by_tenant_id tenant_id status =
      update_subscriptions env (of_tenant tenant_id) (λ x. record x { status = status })

  unfoldable pub link_stripe_customer_id :
      (tenant_id customer : String) → Action (World env) (Unit {0})
  link_stripe_customer_id tenant_id customer =
      update_subscriptions env (of_tenant tenant_id)
        (λ x. record x { stripe_customer_id = customer })
