-- ===== src/Sdk/Flags.antt =====
-- packages/chassis-sdk/src/services/feature-flag.service.ts: the client of the feature flags, with
-- its bounded cache; and guards/feature-gate.guard.ts.
pub mod Caching
use saas_chassis.Prelude.{
  ℕ, ◌+◌, String, Bool, true, false, ◌&&◌, ◌||◌, not, Option, none, some, List, [], ◌∷◌, ◌++◌, ◌==◌,
  Result, ok, err, forbidden, length, template, or_else, truthy, leb, ltb, if◌then◌else◌,
}

pub record Entry : Type 0 where
  pub value : Bool
  pub expires_at : ℕ

-- A `Map` is its entries in the order of insertion.
abbrev pub Cache : Type 0
Cache = List (String × Entry)

pub record ChassisOptions : Type 0 where
  pub tenant_manager_url : Option String
  pub enable_feature_gating : Bool
  pub service_token : Option String

-- The cache, and the URLs that were fetched.
pub record State : Type 0 where
  pub cache : Cache
  pub requests : List String

-- How a `fetch` and the reading of its body end.
pub data Fetched : Type 0 where
  threw : Fetched
  not_ok : (status : ℕ) → Fetched
  answered : (is_enabled : Option Bool) → Fetched

abbrev pub cache_ttl_ms : ℕ
cache_ttl_ms = 60_000

abbrev pub max_cache_size : ℕ
max_cache_size = 1000

-- `map.get(key)`
unfoldable pub get : String → Cache → Option Entry
get key [] = none
get key ((k, e) ∷ m) = if k == key then some e else get key m

-- `map.delete(key)`
pub delete : String → Cache → Cache
delete key [] = []
delete key ((k, e) ∷ m) = if k == key then m else (k, e) ∷ delete key m

-- `map.set(key, entry)`: a known key keeps its place.
pub put : String → Entry → Cache → Cache
put key e [] = (key, e) ∷ []
put key e ((k, old) ∷ m) = if k == key then (key, e) ∷ m else (k, old) ∷ put key e m

-- `map.delete(map.keys().next().value)`
pub evict_oldest : Cache → Cache
unfolding delete
evict_oldest [] = []
evict_oldest ((k, e) ∷ m) = delete k ((k, e) ∷ m)

pub set_cache_entry : String → Entry → Cache → Cache
set_cache_entry key e m = put key e (if leb max_cache_size (length m) then evict_oldest m else m)

abbrev pub cache_key : String → String → String
cache_key tenant_id code = template (tenant_id ∷ ":" ∷ code ∷ [])

-- `cached && cached.expiresAt > Date.now()`
abbrev pub fresh : (now : ℕ) → Option Entry → Option Bool
fresh now none = none
fresh now (some e) = if ltb now e.expires_at then some e.value else none

abbrev pub url_of : String → String → String → String
url_of base tenant_id code =
    template (base ∷ "/api/v1/tenants/" ∷ tenant_id ∷ "/features/" ∷ code ∷ [])

-- The answer of the tenant manager, read at the time `later`; every failure answers false.
pub store_answer : (later : ℕ) → (key : String) → Fetched → State → Bool × State
store_answer later key threw s = (false, s)
store_answer later key (not_ok status) s = (false, s)
store_answer later key (answered is_enabled) s = (
  or_else is_enabled false,
  record s {
    cache =
        set_cache_entry key
          (record { value = or_else is_enabled false; expires_at = later + cache_ttl_ms }) s.cache;
  },
)

pub ask :
    (options : ChassisOptions)
    → (now later : ℕ) → Fetched
    → (tenant_id code : String) → Option Bool
    → State
    → Bool × State
ask options now later fetched tenant_id code (some value) s = (value, s)
ask options now later fetched tenant_id code none s =
    store_answer later (cache_key tenant_id code) fetched (record s {
      requests = s.requests ++ url_of (or_else options.tenant_manager_url "") tenant_id code ∷ [];
    })

-- `now` is the time of the look-up, `later` that after the answer `fetched`, if one is asked for.
unfoldable pub is_enabled :
    (options : ChassisOptions)
    → (now later : ℕ) → Fetched
    → (tenant_id code : String) → State
    → Bool × State
unfolding ask get
is_enabled options now later fetched tenant_id code s =
    if not (truthy options.tenant_manager_url) || not options.enable_feature_gating
    then (true, s)
    else ask options now later fetched tenant_id code
        (fresh now (get (cache_key tenant_id code) s.cache)) s

-- `FeatureGateGuard.canActivate`: the route's feature code and the injected checker may be absent;
-- `enabled` is what the checker answers for the request's tenant.
pub feature_gate : (code : Option String) → (has_checker enabled : Bool) → Result Bool
feature_gate code has_checker enabled =
    if not (truthy code) || not has_checker
    then ok true
    else if enabled
    then ok true
    else err (
        forbidden
          (template ("Feature '" ∷ or_else code "" ∷ "' is not enabled for this tenant" ∷ [])))
