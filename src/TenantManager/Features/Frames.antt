-- ===== src/TenantManager/Features/Frames.antt =====
-- services/tenant-manager/src/modules/features/features.service.ts: what the invalidation of the
-- cache leaves alone.
use saas_chassis.Prelude.{
  ℕ, zero, suc, ◌≡◌, refl, ap, inl, inr, String, List, [], ◌∷◌, ◌++◌, arith, ◌>>=◌, Result-cases,
  Same, Same-IsPreorder, Steps, Steps->>=,
}
use saas_chassis.TenantManager.State.{Env, World}
use saas_chassis.TenantManager.Features.{scan_all, delete_found, invalidate_tenant_feature_cache}

scan_all-world :
    (env : Env) (w : World env) (fuel cursor : ℕ) (pattern : String) (keys : List String)
    → (scan_all env fuel cursor pattern keys w).1 ≡ w
unfolding scan_all
scan_all-world env w zero cursor pattern keys = refl
scan_all-world env w (suc fuel) cursor pattern keys =
    elim (Result-cases (env.redis.scan cursor pattern w.redis)) [
      | inr (e, q) ↦ rw (q, ◌>>=◌)
      | inl ((next, batch), q) ↦
          ground (arith, q, scan_all-world env w fuel next pattern (keys ++ batch))
    ]

-- The tables of a state.
abbrev pub tables : {env : Env} → World env → env.tenants.Store × env.features.Store
tables w = (w.tenants, w.features)

delete_found-tables :
    (env : Env) (keys : List String) → Steps (Same (tables {env = env})) (delete_found env keys)
unfolding delete_found
delete_found-tables env [] w = record { same = refl }
delete_found-tables env (k ∷ ks) w = record { same = refl }

-- The invalidation of the cache leaves the tables alone.
pub invalidate_tenant_feature_cache-tables :
    (env : Env) (fuel : ℕ) (tenant_id : String)
    → Steps (Same (tables {env = env})) (invalidate_tenant_feature_cache env fuel tenant_id)
unfolding invalidate_tenant_feature_cache
invalidate_tenant_feature_cache-tables env fuel tenant_id =
    Steps->>= (Same-IsPreorder (tables {env = env})) _ (delete_found env)
      (λ w. record { same = ap (tables {env = env}) (scan_all-world env w fuel 0 _ []) })
      (delete_found-tables env)
