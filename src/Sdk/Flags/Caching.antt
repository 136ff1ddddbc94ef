-- ===== src/Sdk/Flags/Caching.antt =====
-- The cache of packages/chassis-sdk/src/services/feature-flag.service.ts: its bound, and what a
-- later look-up finds.
use saas_chassis.Prelude.{
  ℕ, suc, ◌+◌, ◌≤◌, ◌≡◌, refl, String, Bool, true, false, Option, none, some, List, [], ◌∷◌, arith,
  eq_refl, length, truthy, leb, not-leb→lt, not, ◌||◌, ◌⊎◌, Bool-cases, inl, inr,
}
use saas_chassis.Sdk.Flags.{
  Entry, Cache, ChassisOptions, State, Fetched, threw, not_ok, answered, max_cache_size, get, put,
  evict_oldest, set_cache_entry, cache_key, fresh, store_answer, ask, is_enabled,
}

length-put : (key : String) (e : Entry) (m : Cache) → length (put key e m) ≤ length m + 1
unfolding put
length-put key e [] = omega arith
length-put key e ((k, old) ∷ m) = ground (arith, length-put key e m)

length-evict_oldest :
    (k : String) (e : Entry) (m : Cache) → length (evict_oldest ((k, e) ∷ m)) ≡ length m
unfolding evict_oldest
length-evict_oldest k e m = rw (eq_refl k) refl

length-set_cache_entry :
    (key : String) (e : Entry) (m : Cache)
    → length m ≤ max_cache_size
    → length (set_cache_entry key e m) ≤ max_cache_size
unfolding set_cache_entry
length-set_cache_entry key e [] h = omega (arith, length-put key e [])
length-set_cache_entry key e ((k, old) ∷ m) h =
    elim (Bool-cases (leb max_cache_size (suc (length m)))) [
      | inl full ↦ rw full (
          omega
            (arith, length-put key e (evict_oldest ((k, old) ∷ m)), length-evict_oldest k old m))
      | inr room ↦ rw room (
          omega (
            arith,
            length-put key e ((k, old) ∷ m),
            not-leb→lt max_cache_size (suc (length m)) room,
          ))
    ]

-- The bound on the cache.
pub record IsBounded (s : State) : Type 0 where
  pub bound : length s.cache ≤ 1000

store_answer-IsBounded :
    (later : ℕ) (key : String) (fetched : Fetched) (s : State)
    → IsBounded s
    → IsBounded (store_answer later key fetched s).1
unfolding store_answer
store_answer-IsBounded later key threw s h = h
store_answer-IsBounded later key (not_ok status) s h = h
store_answer-IsBounded later key (answered b) s h = record {
  bound = length-set_cache_entry key _ s.cache h.bound;
}

ask-IsBounded :
    (options : ChassisOptions) (now later : ℕ) (fetched : Fetched) (tenant_id code : String)
    (found : Option Bool) (s : State)
    → IsBounded s
    → IsBounded (ask options now later fetched tenant_id code found s).1
unfolding ask
ask-IsBounded options now later fetched tenant_id code (some v) s h = h
ask-IsBounded options now later fetched tenant_id code none s h =
    store_answer-IsBounded later _ fetched _ (record { bound = h.bound })

is_enabled-IsBounded :
    (options : ChassisOptions) (now later : ℕ) (fetched : Fetched) (tenant_id code : String)
    (s : State)
    → IsBounded s
    → IsBounded (is_enabled options now later fetched tenant_id code s).1
unfolding is_enabled
is_enabled-IsBounded options now later fetched tenant_id code s h =
    elim (Bool-cases
      (not (truthy options.tenant_manager_url) || not options.enable_feature_gating)) [
        | inl off ↦ rw off h
        | inr on ↦ rw on (ask-IsBounded options now later fetched tenant_id code _ s h)
      ]

-- One call of `isEnabled` with its times and the answer that it would get.
pub record Request : Type 0 where
  pub now : ℕ
  pub later : ℕ
  pub fetched : Fetched
  pub tenant_id : String
  pub code : String

pub serve : ChassisOptions → List Request → State → State
serve options [] s = s
serve options (r ∷ rs) s =
    serve options rs (is_enabled options r.now r.later r.fetched r.tenant_id r.code s).1

-- Whatever the calls, their times and the answers, a cache of at most 1000 entries never grows
-- past 1000 entries.
pub serve-IsBounded :
    (options : ChassisOptions) (rs : List Request) (s : State)
    → IsBounded s
    → IsBounded (serve options rs s)
unfolding serve
serve-IsBounded options [] s h = h
serve-IsBounded options (r ∷ rs) s h =
    serve-IsBounded options rs _
      (is_enabled-IsBounded options r.now r.later r.fetched r.tenant_id r.code s h)

module _ (options : ChassisOptions) (gated : truthy options.tenant_manager_url ≡ true)
    (enabled : options.enable_feature_gating ≡ true) (tenant_id code : String) (s : State) where
  -- With gating configured and no fresh entry, a call that gets no good answer says that the
  -- feature is off and leaves the cache as it was.
  is_enabled-closed :
      (now later status : ℕ) (fetched : Fetched)
      → fresh now (get (cache_key tenant_id code) s.cache) ≡ none
      → (fetched ≡ threw) ⊎ (fetched ≡ not_ok status)
      → let r = is_enabled options now later fetched tenant_id code s in
        (r.0 ≡ false) × (r.1.cache ≡ s.cache)
  unfolding is_enabled store_answer
  is_enabled-closed now later status fetched stale bad = ground (arith, gated, enabled)
