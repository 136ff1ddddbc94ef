-- ===== src/TenantManager/Api/Paging.antt =====
-- services/tenant-manager/src/modules/tenants: the pages of the list of tenants.
use saas_chassis.Prelude.{
  ℕ, zero, suc, ◌-◌, ◌*◌, ◌≤◌, ◌≡◌, refl, ap, ◌∙◌, sym, ◌↔◌, inl, inr, true, List, [], ◌∷◌, ◌++◌,
  ok, arith, Action, pure, ◌>>=◌, length, Elem, Result-cases, >>=-eq-ok,
}
use saas_chassis.External.Repository.{descending, IsPaged}
use saas_chassis.Http.{ceil_div}
use saas_chassis.Http.Pages.{rows_of, first_pages, first_pages-ceil_div}
use saas_chassis.TenantManager.Entities.{Tenant}
use saas_chassis.TenantManager.State.{Env, World}
use saas_chassis.TenantManager.Tenants.{PaginatedTenants, find_all}

module _ (env : Env) where
  -- A client that reads the pages 1 to `n`.
  abbrev pub read_pages : (n limit : ℕ) → Action (World env) (List Tenant)
  read_pages zero limit = pure []
  read_pages (suc n) limit = do
    before ← read_pages n limit
    page ← find_all env (suc n) limit
    pure (before ++ page.items)

module _ (env : Env) (paged : IsPaged env.tenants (("createdAt", descending) ∷ [])) where
  find_all-rows :
      (page limit : ℕ) (w w' : World env) (r : PaginatedTenants)
      → find_all env page limit w ≡ (ok r, w')
      → (w' ≡ w)
        × (r.items ≡ rows_of page limit (paged.listing (λ _. true) w.tenants))
        × (r.total ≡ length (paged.listing (λ _. true) w.tenants))
  unfolding find_all
  find_all-rows page limit w w' r h =
      elim (Result-cases (
        env.tenants.find_and_count (λ _. true) (("createdAt", descending) ∷ []) ((page - 1) * limit)
          limit w.tenants)) [
            | inr (e, q) ↦ (cc, cc, cc)
            | inl ((xs, n), q) ↦
                let (rows, total) =
                  paged.page_of (λ _. true) ((page - 1) * limit) limit w.tenants xs n q in
                (ground arith, ground arith, ground arith)
          ]

  read_pages-first_pages :
      (n limit : ℕ) (w w' : World env) (ts : List Tenant)
      → read_pages env n limit w ≡ (ok ts, w')
      → (w' ≡ w) × (ts ≡ first_pages n limit (paged.listing (λ _. true) w.tenants))
  read_pages-first_pages zero limit w w' ts h = (cc, cc)
  read_pages-first_pages (suc n) limit w w' ts h =
      let (before, v, first, rest) = >>=-eq-ok (read_pages env n limit) _ w w' ts h in
      let (page, u, last, joined) = >>=-eq-ok (find_all env (suc n) limit) _ v w' ts rest in
      let (same, rows) = read_pages-first_pages n limit w v before first in
      let (same', items, _) = find_all-rows (suc n) limit v u page last in
      (
        cc,
        let e : ts ≡ before ++ page.items = cc in
            let items' : page.items ≡ rows_of (suc n) limit (paged.listing (λ _. true) w.tenants) =
              items
              ∙ ap (λ (x : World env). rows_of (suc n) limit (paged.listing (λ _. true) x.tenants))
                  same in
            e ∙ rw (rows, items') refl,
      )

  -- Where no two tenants tie in the order by createdAt, the newest first, which the query of a page
  -- asks for: a client that reads the first page of the tenants, with a limit of at least 1, and
  -- then all the pages that its total makes, where every request returns and nothing is written
  -- meanwhile, has the whole list: exactly the tenants of the table, and as many as the total says.
  pub read_pages-total :
      (limit : ℕ) (w u w' : World env) (r : PaginatedTenants) (ts : List Tenant)
      → 1 ≤ limit
      → find_all env 1 limit w ≡ (ok r, u)
      → read_pages env (ceil_div r.total limit) limit u ≡ (ok ts, w')
      → ((y : Tenant) → Elem y ts ↔ env.tenants.Has w.tenants y) × (length ts ≡ r.total)
  read_pages-total limit w u w' r ts h first pages =
      let (same, _, total) = find_all-rows 1 limit w u r first in
      let (_, rows) = read_pages-first_pages (ceil_div r.total limit) limit u w' ts pages in
      let whole : ts ≡ paged.listing (λ _. true) w.tenants =
        rows ∙ (rw (same, total) (first_pages-ceil_div limit _ h)) in
      (
        λ y. rw whole (
          (λ m. ((paged.listing_has (λ _. true) w.tenants y).0 m).0),
          (λ has. (paged.listing_has (λ _. true) w.tenants y).1 (has, refl)),
        ),
        ap length whole ∙ sym total,
      )
