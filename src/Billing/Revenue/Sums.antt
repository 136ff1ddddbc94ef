-- ===== src/Billing/Revenue/Sums.antt =====
-- services/billing-engine/src/modules/revenue/revenue.service.ts: the parts of the report agree.
use mathlib.Core.List.{Permᴰ}
use mathlib.Core.List.Permᴰ as Permutations
use saas_chassis.Prelude.{
  ℕ, zero, suc, ◌+◌, ◌≤◌, ◌≡◌, refl, ap, ◌∙◌, sym, String, Bool, true, List, [], ◌∷◌, map, ok,
  arith, inl, inr, length, length-take, take, keep, is_some, ◌&&◌, Bool-cases, Result-cases, ◌==◌,
}
use saas_chassis.External.Repository.{IsListed}
use saas_chassis.Billing.Entities.{Invoice, Subscription}
use saas_chassis.Billing.State.{Env, World}
use saas_chassis.Billing.Revenue.{
  Period, sum, amounts, is_paid, period_row, add_to, grouped, insert_by, ordered, RevenueSummary,
  get_revenue_summary,
}

-- The sum of the groups.
abbrev pub total_of : List (String × ℕ) → ℕ
total_of [] = 0
total_of ((k, n) ∷ rows) = n + total_of rows

total_of-add_to :
    (key : String) (n : ℕ) (groups : List (String × ℕ))
    → total_of (add_to key n groups) ≡ n + total_of groups
total_of-add_to key n [] = refl
total_of-add_to key n ((k, m) ∷ groups) = elim (Bool-cases (k == key)) [
  | inl e ↦ rw e (omega arith)
  | inr e ↦ rw e (omega (arith, total_of-add_to key n groups))
]

total_of-grouped : (rows : List (String × ℕ)) → total_of (grouped rows) ≡ total_of rows
total_of-grouped [] = refl
total_of-grouped ((k, n) ∷ rows) =
    total_of-add_to k n (grouped rows) ∙ ap (λ m. n + m) (total_of-grouped rows)

total_of-insert_by :
    (before : String → String → Bool) (k : String) (n : ℕ) (rows : List (String × ℕ))
    → total_of (insert_by before (k, n) rows) ≡ n + total_of rows
total_of-insert_by before k n [] = refl
total_of-insert_by before k n ((k', m) ∷ rows) = elim (Bool-cases (before k' k)) [
  | inl e ↦ rw e (omega (arith, total_of-insert_by before k n rows))
  | inr e ↦ rw e refl
]

total_of-ordered :
    (before : String → String → Bool) (rows : List (String × ℕ))
    → total_of (ordered before rows) ≡ total_of rows
total_of-ordered before [] = refl
total_of-ordered before ((k, n) ∷ rows) =
    total_of-insert_by before k n (ordered before rows)
    ∙ ap (λ m. n + m) (total_of-ordered before rows)

total_of-take : (c : ℕ) (rows : List (String × ℕ)) → total_of (take c rows) ≤ total_of rows
total_of-take zero rows = omega arith
total_of-take (suc c) [] = omega arith
total_of-take (suc c) ((k, n) ∷ rows) = omega (arith, total_of-take c rows)

sum-Permᴰ : {xs ys : List Invoice} → Permᴰ xs ys → sum (amounts xs) ≡ sum (amounts ys)
sum-Permᴰ Permutations.nil = refl
sum-Permᴰ (Permutations.cons e p) =
    omega (arith, ap (λ (x : Invoice). x.amount_paid) e, sum-Permᴰ p)
sum-Permᴰ (Permutations.swap e e') =
    omega (arith, ap (λ (x : Invoice). x.amount_paid) e, ap (λ (x : Invoice). x.amount_paid) e')
sum-Permᴰ (Permutations.trans p q) = sum-Permᴰ p ∙ sum-Permᴰ q

-- Fewer rows, less money.
sum-keep-le :
    (p q : Invoice → Bool) (rows : List Invoice)
    → ((x : Invoice) → p x ≡ true → q x ≡ true)
    → sum (amounts (keep p rows)) ≤ sum (amounts (keep q rows))
sum-keep-le p q [] h = omega arith
sum-keep-le p q (x ∷ rows) h = elim (Bool-cases (p x)) [
  | inl e ↦ rw (e, h x e) (omega (arith, sum-keep-le p q rows h))
  | inr e ↦ elim (Bool-cases (q x)) [
    | inl e' ↦ rw (e, e') (omega (arith, sum-keep-le p q rows h))
    | inr e' ↦ rw (e, e') (sum-keep-le p q rows h)
  ]
]

module _ (env : Env) where
  total_of-period_row :
      (period : Period) (xs : List Invoice)
      → total_of (map (period_row env period) xs) ≡ sum (amounts xs)
  total_of-period_row period [] = refl
  total_of-period_row period (x ∷ xs) = ap (λ n. x.amount_paid + n) (total_of-period_row period xs)

total_of-ones :
    (xs : List Subscription)
    → total_of (map (λ (x : Subscription). (x.plan_code, 1)) xs) ≡ length xs
total_of-ones [] = refl
total_of-ones (x ∷ xs) = omega (arith, total_of-ones xs)

module _ (env : Env) (now : ℕ) (period : Period) (w w' : World env) (s : RevenueSummary) where
  abbrev dated : Invoice → Bool
  dated x = is_paid x && is_some x.paid_at

  -- The rows that the parts of a report are made of.
  get_revenue_summary-rows :
      get_revenue_summary env now period w ≡ (ok s, w')
      → (paid : List Invoice) × (by_date : List Invoice) × (active : List Subscription)
        × (env.invoices.find is_paid w.invoices ≡ ok paid)
        × (env.invoices.find dated w.invoices ≡ ok by_date)
        × (s.total_revenue ≡ sum (amounts paid))
        × (s.active_subscriptions ≡ length active)
        × (s.revenue_by_period
            ≡ take 30 (ordered env.period_after (grouped (map (period_row env period) by_date))))
        × (s.subscriptions_by_plan ≡ grouped (map (λ (x : Subscription). (x.plan_code, 1)) active))
  unfolding get_revenue_summary
  get_revenue_summary-rows h = elim (Result-cases (env.invoices.find is_paid w.invoices)) [
    | inr (e, q) ↦ ground arith
    | inl (paid, q) ↦
        elim (Result-cases (env.subscriptions.find (λ x. x.status == "active") w.subscriptions)) [
          | inr (e, q') ↦ ground arith
          | inl (active, q') ↦ elim (Result-cases (env.invoices.find dated w.invoices)) [
            | inr (e, q'') ↦ ground arith
            | inl (by_date, q'') ↦ (
              paid,
              by_date,
              active,
              q,
              q'',
              ground arith,
              ground arith,
              ground arith,
              ground arith,
            )
          ]
        ]
  ]

-- A revenue report that is returned is consistent: the subscriptions by plan add up to the active
-- ones, there are at most 30 periods, and they add up to no more than the total revenue.
pub get_revenue_summary-ok :
    (env : Env)
    → IsListed env.invoices
    → (now : ℕ) (period : Period) (w w' : World env) (s : RevenueSummary)
    → get_revenue_summary env now period w ≡ (ok s, w')
    → (total_of s.subscriptions_by_plan ≡ s.active_subscriptions)
      × (length s.revenue_by_period ≤ 30)
      × (total_of s.revenue_by_period ≤ s.total_revenue)
get_revenue_summary-ok env listed now period w w' s h =
    let (paid, by_date, active, found, found', total, count, periods, plans) =
      get_revenue_summary-rows env now period w w' s h in
    let groups = ordered env.period_after (grouped (map (period_row env period) by_date)) in
    let whole : total_of groups ≡ sum (amounts by_date) =
      total_of-ordered env.period_after _
      ∙ total_of-grouped _
      ∙ total_of-period_row env period by_date in
    let fewer =
      sum-keep-le (dated env now period w w' s) is_paid (listed.rows w.invoices)
        (λ x e. ground arith) in
    (
      ap total_of plans ∙ total_of-grouped _ ∙ total_of-ones active ∙ sym count,
      rw periods (length-take 30 groups),
      rw periods (
          omega (
            arith,
            total,
            whole,
            total_of-take 30 groups,
            fewer,
            sum-Permᴰ (listed.find_rows is_paid w.invoices paid found),
            sum-Permᴰ (listed.find_rows _ w.invoices by_date found'),
          )),
    )
