-- ===== src/TenantManager/Features/Representation.antt =====
-- services/tenant-manager/src/modules/features/features.service.ts: each operation on the overrides
-- keeps the table a representation of the map that the operation makes.
use saas_chassis.Prelude.{
  ◌≡◌, refl, ap, sym, ◌∙◌, inl, inr, String, Bool, true, false, ◌&&◌, Option, none, some, List, [],
  ◌∷◌, ok, arith, eq_refl, eq_iff, ◌==◌, for_each, includes, includes_iff, Bool-cases, Result-cases,
  >>=-eq-ok,
}
use saas_chassis.External.Repository.{IsTable}
use saas_chassis.TenantManager.Entities.{TenantFeature}
use saas_chassis.TenantManager.State.{Env, World}
use saas_chassis.TenantManager.Features.{
  is_override, upserted, toggle_feature, bulk_upsert_features, replace_tenant_features,
}
use saas_chassis.TenantManager.Features.Overrides.{
  Overrides, set_override, set_overrides, replace_overrides, Command, toggle, bulk_upsert, replace,
  specify, specify_all, execute, Represents,
}
use saas_chassis.TenantManager.Features.Replace.{replace_tenant_features-rows}
use saas_chassis.TenantManager.Features.Toggle.{
  same_feature, same_feature-is_override, is_override-upserted, toggle_feature-Toggled,
}

-- One row under two names of its key, and under the name of another.
module _ (t c t' c' : String) (f : TenantFeature) where
  is_override-same :
      is_override t c f ≡ true → (t' == t && c' == c) ≡ true → is_override t' c' f ≡ true
  is_override-same h e = ground (
    arith,
    eq_iff f.tenant_id t,
    eq_iff f.feature_code c,
    eq_iff t' t,
    eq_iff c' c,
    eq_iff f.tenant_id t',
    eq_iff f.feature_code c',
  )

  is_override-other :
      is_override t' c' f ≡ true → (t' == t && c' == c) ≡ false → is_override t c f ≡ false
  is_override-other h e = ground (
    arith,
    eq_iff f.tenant_id t,
    eq_iff f.feature_code c,
    eq_iff t' t,
    eq_iff c' c,
    eq_iff f.tenant_id t',
    eq_iff f.feature_code c',
  )

module _ (env : Env) (table : IsTable same_feature env.features) where
  save-Represents :
      (o : Overrides) (t c : String) (b : Bool) (x : TenantFeature) (s s' : env.features.Store)
      → is_override t c x ≡ true
      → x.is_enabled ≡ b
      → env.features.save x s ≡ (ok tt, s')
      → Represents env o s
      → Represents env (set_override t c b o) s'
  save-Represents o t c b x s s' key value saved r = record {
    sound = λ f has.
        let same = same_feature-is_override t c x f key in
        elim ((table.save_has x s s' f saved).0 has) [
          | inl e ↦
              let own : is_override t c f ≡ true = rw e key in
              rw own (ap some (sym value ∙ ap (λ (u : TenantFeature). u.is_enabled) (sym e)))
          | inr (old, differs) ↦
              let other : is_override t c f ≡ false = sym same ∙ differs in rw other (r.sound f old)
        ];
    complete = λ t' c' b' e. elim (Bool-cases (t' == t && c' == c)) [
      | inl own ↦ (
        x,
        (table.save_has x s s' x saved).1 (inl refl),
        is_override-same t c t' c' x key own,
        value ∙ cc (rw own at e),
      )
      | inr other ↦
          let (f, old, at, is) = r.complete t' c' b' (rw other at e) in
          (
            f,
            (table.save_has x s s' f saved).1 (
                inr (
                  old,
                  same_feature-is_override t c x f key ∙ is_override-other t c t' c' f at other,
                )),
            at,
            is,
          )
    ];
  }

  found-is_override :
      (t c : String) (s : env.features.Store) (found : Option TenantFeature)
      → env.features.find_one (is_override t c) s ≡ ok found
      → (f : TenantFeature) → found ≡ some f
      → is_override t c f ≡ true
  found-is_override t c s found q f e = (table.find_one_some (is_override t c) s f (q ∙ ap ok e)).1

  toggle_feature-Represents :
      (o : Overrides) (t c user : String) (b : Bool) (x : TenantFeature) (w w' : World env)
      → toggle_feature env t c b user w ≡ (ok x, w')
      → Represents env o w.features
      → Represents env (set_override t c b o) w'.features
  toggle_feature-Represents o t c user b x w w' h r =
      let d = toggle_feature-Toggled env t c user b w x w' h in
      let (key, value) =
        is_override-upserted t c user b d.found
          (found-is_override t c w.features d.found d.looked) in
      save-Represents o t c b (upserted t c b user d.found) w.features w'.features key value d.saved
        r

  bulk_upsert_features-Represents :
      (o : Overrides) (t : String) (codes : List String) (b : Bool) (user : String)
      (w w' : World env)
      → bulk_upsert_features env t codes b user w ≡ (ok tt, w')
      → Represents env o w.features
      → Represents env (set_overrides t codes b o) w'.features
  unfolding bulk_upsert_features
  bulk_upsert_features-Represents o t [] b user w w' h r = let e : w' ≡ w = cc in rw e r
  bulk_upsert_features-Represents o t (c ∷ codes) b user w w' h r =
      elim (Result-cases (env.features.find_one (is_override t c) w.features)) [
        | inr (e, q) ↦ cc (rw q at h)
        | inl (found, q) ↦
            let x = upserted t c b user found in
            let s' = (env.features.save x w.features).1 in
            elim (Result-cases (env.features.save x w.features).0) [
              | inr (e, k) ↦ cc (rw (q, k) at h)
              | inl (_, k) ↦
                  let (key, value) =
                    is_override-upserted t c user b found
                      (found-is_override t c w.features found q) in
                  bulk_upsert_features-Represents (set_override t c b o) t codes b user
                    (record w { features = s' }) w' (rw (q, k) at h)
                    (save-Represents o t c b x w.features s' key value (ap (λ i. (i, s')) k) r)
            ]
      ]

  replace_tenant_features-Represents :
      (o : Overrides) (t : String) (codes : List String) (user : String) (w w' : World env)
      → replace_tenant_features env t codes user w ≡ (ok tt, w')
      → Represents env o w.features
      → Represents env (replace_overrides t codes o) w'.features
  replace_tenant_features-Represents o t codes user w w' h r =
      let rows =
        λ (f : TenantFeature). replace_tenant_features-rows env table t user codes w w' f h in
      record {
        sound = λ f has. elim ((rows f).0 has) [
          | inl (c, member, e) ↦ rw (e, eq_refl t, (includes_iff codes c).1 member) refl
          | inr (other, old) ↦ rw other (r.sound f old)
        ];
        complete = λ t' c' b' e. elim (Bool-cases (t' == t)) [
          | inr other ↦
              let (f, old, at, is) = r.complete t' c' b' (rw other at e) in
              (
                f,
                (rows f).1 (
                    inr (
                      ground (arith, eq_iff f.tenant_id t, eq_iff f.tenant_id t', eq_iff t' t),
                      old,
                    )),
                at,
                is,
              )
          | inl own ↦ elim (Bool-cases (includes codes c')) [
            | inr absent ↦ cc (rw (own, absent) at e)
            | inl listed ↦ (
              upserted t c' true user none,
              (rows (upserted t c' true user none)).1
                  (inl (c', (includes_iff codes c').0 listed, refl)),
              ground (arith, eq_iff t t', eq_iff t' t, eq_refl c'),
              cc (rw (own, listed) at e),
            )
          ]
        ];
      }

  execute-Represents :
      (o : Overrides) (command : Command) (w w' : World env)
      → execute env command w ≡ (ok tt, w')
      → Represents env o w.features
      → Represents env (specify command o) w'.features
  execute-Represents o (toggle t c b user) w w' h r =
      elim (Result-cases (toggle_feature env t c b user w).0) [
        | inr (e, q) ↦ cc (rw q at h)
        | inl (x, q) ↦ toggle_feature-Represents o t c user b x w w' (ground arith) r
      ]
  execute-Represents o (bulk_upsert t codes b user) w w' h r =
      bulk_upsert_features-Represents o t codes b user w w' h r
  execute-Represents o (replace t codes user) w w' h r =
      replace_tenant_features-Represents o t codes user w w' h r

  pub execute_all-Represents :
      (o : Overrides) (commands : List Command) (w w' : World env)
      → for_each commands (execute env) w ≡ (ok tt, w')
      → Represents env o w.features
      → Represents env (specify_all commands o) w'.features
  execute_all-Represents o [] w w' h r = let e : w' ≡ w = cc in rw e r
  execute_all-Represents o (command ∷ commands) w w' h r =
      let (_, v, first, rest) =
        >>=-eq-ok (execute env command) (λ _. for_each commands (execute env)) w w' tt h in
      execute_all-Represents (specify command o) commands v w' rest
        (execute-Represents o command w v first r)
