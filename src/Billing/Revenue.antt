-- ===== src/Billing/Revenue.antt =====
-- services/billing-engine/src/modules/revenue/revenue.service.ts, and the two sums of
-- invoices/invoices.service.ts, which are the same queries. An amount is in hundredths. A query with
-- SUM or COUNT is the sum or the number of the rows that it selects, and GROUP BY is `grouped`.
pub mod Sums
use saas_chassis.Prelude.{
  ℕ, zero, suc, ◌+◌, ◌*◌, String, Bool, true, false, ◌&&◌, Option, none, some, List, [], ◌∷◌, ◌++◌,
  map, Action, pure, ◌>>=◌, ◌==◌, if◌then◌else◌, leb, ltb, nat_eq, is_some, length, take, keep,
  or_else,
}
use saas_chassis.Billing.Entities.{Subscription, Invoice, InvoiceStatus}
use saas_chassis.Billing.State.{Env, World, find_subscriptions, find_invoices}

pub data Period : Type 0 where
  daily monthly yearly : Period

-- `formatMap[period]`
unfoldable pub format_of : Period → String
format_of daily = "YYYY-MM-DD"
format_of monthly = "YYYY-MM"
format_of yearly = "YYYY"

abbrev pub is_paid : Invoice → Bool
is_paid x = elim x.status [ InvoiceStatus.paid ↦ true | _ ↦ false ]

abbrev pub sum : List ℕ → ℕ
sum [] = 0
sum (n ∷ ns) = n + sum ns

abbrev pub amounts : List Invoice → List ℕ
amounts xs = map (λ x. x.amount_paid) xs

-- One more row of a group with a key.
abbrev pub add_to : String → ℕ → List (String × ℕ) → List (String × ℕ)
add_to key n [] = (key, n) ∷ []
add_to key n ((k, m) ∷ groups) =
    if k == key then (k, n + m) ∷ groups else (k, m) ∷ add_to key n groups

-- The sums of the groups of rows with a key and a number.
abbrev pub grouped : List (String × ℕ) → List (String × ℕ)
grouped [] = []
grouped ((key, n) ∷ rows) = add_to key n (grouped rows)

-- ORDER BY on the key, by insertion: `before a b` says that `a` stands before `b`.
abbrev pub insert_by : (String → String → Bool) → String × ℕ → List (String × ℕ) → List (String × ℕ)
insert_by before (k, n) [] = (k, n) ∷ []
insert_by before (k, n) ((k', m) ∷ rest) =
    if before k' k then (k', m) ∷ insert_by before (k, n) rest else (k, n) ∷ (k', m) ∷ rest

abbrev pub ordered : (String → String → Bool) → List (String × ℕ) → List (String × ℕ)
ordered before [] = []
ordered before (row ∷ rows) = insert_by before row (ordered before rows)

-- A quotient.
pub record Ratio : Type 0 where
  pub numerator : ℕ
  pub denominator : ℕ

pub record RevenueSummary : Type 0 where
  pub total_revenue : ℕ
  pub active_subscriptions : ℕ
  pub mrr : ℕ
  pub churn_rate : Ratio
  pub arr_by_plan : List (String × ℕ)
  pub revenue_by_period : List (String × ℕ)
  pub subscriptions_by_plan : List (String × ℕ)

module _ (env : Env) where
  unfoldable pub get_total_revenue : Action (World env) ℕ
  get_total_revenue = do rows ← find_invoices env is_paid; pure (sum (amounts rows))

  unfoldable pub get_active_subscription_count : Action (World env) ℕ
  get_active_subscription_count = do
    rows ← find_subscriptions env (λ x. x.status == "active")
    pure (length rows)

  -- `DATE_TRUNC('month', invoice.paid_at) = DATE_TRUNC('month', NOW())`; no row without a date.
  abbrev pub paid_in_month_of : (now : ℕ) → Invoice → Bool
  paid_in_month_of now x =
      is_paid x
      && elim x.paid_at [ none ↦ false | some d ↦ nat_eq (env.month_of d) (env.month_of now) ]

  unfoldable pub get_current_month_revenue : (now : ℕ) → Action (World env) ℕ
  get_current_month_revenue now = do
    rows ← find_invoices env (paid_in_month_of now)
    pure (sum (amounts rows))

  -- The key and the amount of a row: it has a date by the condition of the query.
  abbrev pub period_row : Period → Invoice → String × ℕ
  period_row period x = (env.to_char (or_else x.paid_at 0) (format_of period), x.amount_paid)

  unfoldable pub get_revenue_by_period : Period → Action (World env) (List (String × ℕ))
  get_revenue_by_period period = do
    rows ← find_invoices env (λ x. is_paid x && is_some x.paid_at)
    pure (take 30 (ordered env.period_after (grouped (map (period_row period) rows))))

  unfoldable pub get_subscriptions_by_plan : Action (World env) (List (String × ℕ))
  get_subscriptions_by_plan = do
    rows ← find_subscriptions env (λ x. x.status == "active")
    pure (grouped (map (λ x. (x.plan_code, 1)) rows))

  unfoldable pub get_churn_rate : (now : ℕ) → Action (World env) Ratio
  get_churn_rate now w =
      (do
        churned ← find_subscriptions env (λ x.
            x.status == "canceled" && leb (env.month_of now) (env.updated_at w.subscriptions x))
        total ←
            find_subscriptions env (λ x. ltb (env.created_at w.subscriptions x) (env.month_of now))
        pure (
            if nat_eq (length total) 0
            then record { numerator = 0; denominator = 1 }
            else record { numerator = length churned; denominator = length total }))
        w

  -- The inner join on the Stripe customer: the plan of each subscription with the amount of each
  -- invoice of its customer.
  abbrev pub joined : List Invoice → List Subscription → List (String × ℕ)
  joined [] subs = []
  joined (x ∷ xs) subs =
      map (λ s. (s.plan_code, x.amount_paid))
        (keep (λ s. s.stripe_customer_id == x.stripe_customer_id) subs)
      ++ joined xs subs

  unfoldable pub get_arr_by_plan : (now : ℕ) → Action (World env) (List (String × ℕ))
  get_arr_by_plan now = do
    rows ← find_invoices env (paid_in_month_of now)
    subs ← find_subscriptions env (λ _. true)
    pure (map (λ (plan, n). (plan, n * 12)) (grouped (joined rows subs)))

  unfoldable pub get_revenue_summary : (now : ℕ) → Period → Action (World env) RevenueSummary
  unfolding get_total_revenue get_active_subscription_count get_current_month_revenue
      get_revenue_by_period get_subscriptions_by_plan get_churn_rate get_arr_by_plan
  get_revenue_summary now period = do
    total ← get_total_revenue
    active ← get_active_subscription_count
    by_period ← get_revenue_by_period period
    by_plan ← get_subscriptions_by_plan
    churn ← get_churn_rate now
    arr ← get_arr_by_plan now
    mrr ← get_current_month_revenue now
    pure (record {
      total_revenue = total;
      active_subscriptions = active;
      mrr = mrr;
      churn_rate = churn;
      arr_by_plan = arr;
      revenue_by_period = by_period;
      subscriptions_by_plan = by_plan;
    })
