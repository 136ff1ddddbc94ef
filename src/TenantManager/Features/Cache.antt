-- ===== src/TenantManager/Features/Cache.antt =====
-- services/tenant-manager/src/modules/features/features.service.ts: the cache of feature checks
-- and its invalidation.
use mathlib.Core.List.{append_assoc}
use saas_chassis.Prelude.{
  ℕ, zero, suc, ◌≤◌, ◌≡◌, refl, ap, sym, ◌∙◌, ◌⊎◌, inl, inr, String, Bool, true, false, none, some,
  List, [], ◌∷◌, ◌++◌, ok, arith, eq_refl, ◌==◌, ◌>>=◌, includes, nat_eq, template, Option-cases,
  Result-cases, Bool-cases, >>=-eq-ok,
}
use saas_chassis.External.Redis.{Redis, IsRedis, Scanned, last, more}
use saas_chassis.TenantManager.State.{Env, World}
use saas_chassis.TenantManager.Features.{
  cache_key, encode, is_feature_enabled, scan_all, delete_found, invalidate_tenant_feature_cache,
}

decode-encode : (b : Bool) → (encode b == "1") ≡ b
decode-encode true = refl
decode-encode false = refl

module _ (env : Env) (tenant_id code : String) (w w' : World env) (b : Bool) where
  -- A check that returns has either answered from the cache and changed nothing, or stored its
  -- answer in the cache.
  is_feature_enabled-cases :
      is_feature_enabled env tenant_id code w ≡ (ok b, w')
      → (w' ≡ w)
        ⊎ (env.redis.setex (cache_key tenant_id code) 300 (encode b) w.redis ≡ (ok tt, w'.redis))
  unfolding is_feature_enabled
  is_feature_enabled-cases h =
      elim (Result-cases (env.redis.get (cache_key tenant_id code) w.redis)) [
        | inr (e, q) ↦ ground arith
        | inl (some v, q) ↦ inl (ground arith)
        | inl (none, q) ↦ inr (ground arith)
      ]

module _ (env : Env) (redis : IsRedis env.redis) (tenant_id code : String)
    (w w' w'' : World env) where
  -- A check that finds the key in the cache answers what the key says and changes nothing.
  is_feature_enabled-hit :
      (b v : Bool)
      → env.redis.value w.redis (cache_key tenant_id code) ≡ some (encode v)
      → is_feature_enabled env tenant_id code w ≡ (ok b, w')
      → (b ≡ v) × (w' ≡ w)
  unfolding is_feature_enabled
  is_feature_enabled-hit b v held h =
      elim (Result-cases (env.redis.get (cache_key tenant_id code) w.redis)) [
        | inr (e, q) ↦ (cc, cc)
        | inl (o, q) ↦
            let e = redis.get_value (cache_key tenant_id code) w.redis o q ∙ held in
            (ground (arith, decode-encode v), ground arith)
      ]

module _ (env : Env) (redis : IsRedis env.redis) (tenant_id code : String)
    (w w' w'' : World env) where
  -- When two checks of one feature follow one another and both return, the second gives the answer
  -- of the first and changes nothing.
  pub is_feature_enabled-stable :
      (b b' : Bool)
      → is_feature_enabled env tenant_id code w ≡ (ok b, w')
      → is_feature_enabled env tenant_id code w' ≡ (ok b', w'')
      → (b' ≡ b) × (w'' ≡ w')
  is_feature_enabled-stable b b' first second =
      elim (is_feature_enabled-cases env tenant_id code w w' b first) [
        | inl same ↦ (cc, cc)
        | inr stored ↦
            is_feature_enabled-hit env redis tenant_id code w' w'' w'' b' b
              (redis.setex_value (cache_key tenant_id code) (encode b) 300 w.redis w'.redis
                  (cache_key tenant_id code) stored
                ∙ rw (eq_refl (cache_key tenant_id code)) refl)
              second
      ]

module _ (env : Env) (redis : IsRedis env.redis) (pattern : String) (w w' : World env) where
  -- With fuel for it, the loop collects the batches of a whole iteration, after the keys it has.
  scan_all-Scanned :
      (fuel cursor : ℕ) (keys found : List String)
      → scan_all env fuel cursor pattern keys w ≡ (ok found, w')
      → (w' ≡ w)
        × (more : List String) × Scanned env.redis pattern w.redis cursor more
        × (found ≡ keys ++ more)
  unfolding scan_all
  scan_all-Scanned zero cursor keys found h = (cc, cc, cc, cc)
  scan_all-Scanned (suc fuel) cursor keys found h =
      elim (Result-cases (env.redis.scan cursor pattern w.redis)) [
        | inr (e, q) ↦ (cc (rw (q, ◌>>=◌) at h), cc, cc, cc)
        | inl ((next, batch), q) ↦ elim (Bool-cases (nat_eq next 0)) [
          | inl e ↦ (
            ground arith,
            batch,
            last cursor batch (q ∙ ap (λ n. ok (n, batch)) (ground arith)),
            ground arith,
          )
          | inr e ↦
              let (same, more_keys, scanned, eq) =
                scan_all-Scanned fuel next (keys ++ batch) found (ground arith) in
              (
                same,
                batch ++ more_keys,
                more cursor next batch more_keys q e scanned,
                eq ∙ append_assoc keys batch more_keys,
              )
        ]
      ]

  delete_found-includes :
      (keys : List String) (k : String)
      → delete_found env keys w ≡ (ok tt, w')
      → ((v : String) → env.redis.value w.redis k ≡ some v → includes keys k ≡ true)
      → env.redis.value w'.redis k ≡ none
  unfolding delete_found
  delete_found-includes [] k h all = elim (Option-cases (env.redis.value w.redis k)) [
    | inl absent ↦ (let same : w.redis ≡ w'.redis = ground arith in rw (← same) absent)
    | inr (v, held) ↦ cc (all v held)
  ]
  delete_found-includes (x ∷ xs) k h all =
      let deleted = redis.del_value (x ∷ xs) w.redis w'.redis k (ground arith) in
      elim (Option-cases (env.redis.value w.redis k)) [
        | inl absent ↦ ground arith
        | inr (v, held) ↦ ground (arith, all v held)
      ]

abbrev pub feature_pattern : String → String
feature_pattern tenant_id = template ("feature:" ∷ tenant_id ∷ ":*" ∷ [])

-- When the invalidation of a tenant's cache has returned, Redis holds no key that the tenant's
-- pattern matches.
pub invalidate_tenant_feature_cache-clears :
    (env : Env)
    → IsRedis env.redis
    → (fuel : ℕ) (tenant_id k : String) (w w' : World env)
    → invalidate_tenant_feature_cache env fuel tenant_id w ≡ (ok tt, w')
    → env.redis.matches (feature_pattern tenant_id) k ≡ true
    → env.redis.value w'.redis k ≡ none
unfolding invalidate_tenant_feature_cache
invalidate_tenant_feature_cache-clears env redis fuel tenant_id k w w' h matched =
    let pattern = feature_pattern tenant_id in
    let (keys, v, scanned, deleted) =
      >>=-eq-ok (scan_all env fuel 0 pattern []) (delete_found env) w w' tt h in
    let (same, more_keys, all, eq) =
      scan_all-Scanned env redis pattern w v fuel 0 [] keys scanned in
    delete_found-includes env redis pattern v w' keys k deleted (λ x held. rw eq (
      redis.scan_all pattern w.redis more_keys k x all
        (rw (ap (λ (u : World env). env.redis.value u.redis k) (sym same)) held) matched))

-- The number of `SCAN` calls of an iteration.
unfoldable pub rounds :
    {r : Redis} {pattern : String} {s : r.Store} {cursor : ℕ} {keys : List String}
    → Scanned r pattern s cursor keys
    → ℕ
rounds (last cursor batch q) = 1
rounds (more cursor next batch keys q e rest) = suc (rounds rest)

-- The loop of the invalidation ends: if Redis brings the cursor back to 0 after some number of
-- calls, fuel for that number of calls is enough, and the loop returns the keys of all batches.
pub scan_all_total :
    (env : Env) (w : World env) (pattern : String) {cursor : ℕ} {keys : List String}
    (d : Scanned env.redis pattern w.redis cursor keys) (fuel : ℕ) (acc : List String)
    → rounds d ≤ fuel
    → scan_all env fuel cursor pattern acc w ≡ (ok (acc ++ keys), w)
unfolding scan_all rounds
scan_all_total env w pattern (last cursor batch q) zero acc h = absurd (omega arith)
scan_all_total env w pattern (last cursor batch q) (suc fuel) acc h = rw (q, ◌>>=◌)
scan_all_total env w pattern (more cursor next batch keys q e rest) zero acc h =
    absurd (omega arith)
scan_all_total env w pattern (more cursor next batch keys q e rest) (suc fuel) acc h = ground (
  arith,
  q,
  e,
  scan_all_total env w pattern rest fuel (acc ++ batch) (omega arith),
  append_assoc acc batch keys,
)
