-- ===== src/TenantManager/Features/Replace.antt =====
-- services/tenant-manager/src/modules/features/features.service.ts: what
-- `replaceTenantFeatures` leaves in the table.
use saas_chassis.Prelude.{
  ◌≡◌, refl, ap, sym, ◌⊎◌, inl, inr, ◌↔◌, String, true, false, none, List, [], ◌∷◌, ok, arith,
  eq_iff, ◌==◌, Elem, for_each, Bool-cases, >>=-eq-ok,
}
use saas_chassis.External.Repository.{IsTable}
use saas_chassis.TenantManager.Entities.{TenantFeature}
use saas_chassis.TenantManager.State.{Env, World, delete_features}
use saas_chassis.TenantManager.Features.{upserted, insert_feature, replace_tenant_features}
use saas_chassis.TenantManager.Features.Toggle.{same_feature}

module _ (env : Env) (t : IsTable same_feature env.features) (tenant_id user : String) where
  -- The row that enables a feature of the tenant.
  abbrev enabled_row : String → TenantFeature
  enabled_row code = upserted tenant_id code true user none

  enabled_row-of_same :
      (c e : String)
      → same_feature (enabled_row c) (enabled_row e) ≡ true
      → enabled_row e ≡ enabled_row c
  enabled_row-of_same c e h = ap enabled_row (sym ((eq_iff c e).0 (ground arith)))

  insert_feature-saved :
      (code : String) (w w' : World env)
      → insert_feature env tenant_id user code w ≡ (ok tt, w')
      → env.features.save (enabled_row code) w.features ≡ (ok tt, w'.features)
  insert_feature-saved code w w' h = ground arith

  -- A row after the loop was there before it, or is one of those inserted.
  inserted_only :
      (codes : List String) (w w' : World env) (y : TenantFeature)
      → for_each codes (insert_feature env tenant_id user) w ≡ (ok tt, w')
      → env.features.Has w'.features y
      → env.features.Has w.features y ⊎ ((c : String) × Elem c codes × (y ≡ enabled_row c))
  inserted_only [] w w' y h has = inl (let e : w' ≡ w = cc in rw e at has)
  inserted_only (c ∷ codes) w w' y h has =
      let (_, v, first, rest) =
        >>=-eq-ok (insert_feature env tenant_id user c)
          (λ _. for_each codes (insert_feature env tenant_id user)) w w' tt h in
      elim (inserted_only codes v w' y rest has) [
        | inr (e, m, q) ↦ inr (e, inr m, q)
        | inl before ↦
            elim ((t.save_has (enabled_row c) w.features v.features y
                (insert_feature-saved c w v first)).0
              before) [ inl q ↦ inr (c, inl refl, q) | inr (old, _) ↦ inl old ]
      ]

  -- An inserted row stays, and so does any row of another tenant.
  kept :
      (codes : List String) (w w' : World env) (y : TenantFeature)
      → for_each codes (insert_feature env tenant_id user) w ≡ (ok tt, w')
      → ((c : String) → same_feature (enabled_row c) y ≡ true → y ≡ enabled_row c)
      → env.features.Has w.features y
      → env.features.Has w'.features y
  kept [] w w' y h own has = let e : w' ≡ w = cc in rw e has
  kept (c ∷ codes) w w' y h own has =
      let (_, v, first, rest) =
        >>=-eq-ok (insert_feature env tenant_id user c)
          (λ _. for_each codes (insert_feature env tenant_id user)) w w' tt h in
      let saved =
        t.save_has (enabled_row c) w.features v.features y (insert_feature-saved c w v first) in
      kept codes v w' y rest own (elim (Bool-cases (same_feature (enabled_row c) y)) [
        | inl same ↦ saved.1 (inl (own c same))
        | inr differs ↦ saved.1 (inr (has, differs))
      ])

  inserted :
      (codes : List String) (w w' : World env) (c : String)
      → for_each codes (insert_feature env tenant_id user) w ≡ (ok tt, w')
      → Elem c codes
      → env.features.Has w'.features (enabled_row c)
  inserted [] w w' c h m = elim m [ ]
  inserted (e ∷ codes) w w' c h m =
      let (_, v, first, rest) =
        >>=-eq-ok (insert_feature env tenant_id user e)
          (λ _. for_each codes (insert_feature env tenant_id user)) w w' tt h in
      elim m [
        | inr n ↦ inserted codes v w' c rest n
        | inl q ↦
            kept codes v w' (enabled_row c) rest (λ d. enabled_row-of_same d c)
              ((t.save_has (enabled_row e) w.features v.features (enabled_row c)
                  (insert_feature-saved e w v first)).1
                (inl (ap enabled_row q)))
      ]

  -- After the replacement has returned, the tenant's rows are exactly the given codes, each enabled
  -- by the given user, and the rows of the other tenants are those from before.
  pub replace_tenant_features-rows :
      (codes : List String) (w w' : World env) (y : TenantFeature)
      → replace_tenant_features env tenant_id codes user w ≡ (ok tt, w')
      → env.features.Has w'.features y ↔ (
          ((c : String) × Elem c codes × (y ≡ upserted tenant_id c true user none))
          ⊎ ((y.tenant_id == tenant_id) ≡ false) × env.features.Has w.features y)
  unfolding replace_tenant_features
  replace_tenant_features-rows codes w w' y h =
      let (_, v, deleted, looped) =
        >>=-eq-ok (delete_features env (λ f. f.tenant_id == tenant_id))
          (λ _. for_each codes (insert_feature env tenant_id user)) w w' tt h in
      let gone =
        t.delete_has (λ f. f.tenant_id == tenant_id) w.features v.features y (ground arith) in
      (
        λ has. elim (inserted_only codes v w' y looped has) [
          | inr found ↦ inl found
          | inl before ↦ let (old, other) = gone.0 before in inr (other, old)
        ],
        λ m. elim m [
          | inl (c, member, q) ↦ rw q (inserted codes v w' c looped member)
          | inr (other, old) ↦
              kept codes v w' y looped
                (λ c same. cc (
                  let own : (y.tenant_id == tenant_id) ≡ true =
                    ground (arith, eq_iff tenant_id y.tenant_id, eq_iff y.tenant_id tenant_id) in
                  own))
                (gone.1 (old, other))
        ],
      )
