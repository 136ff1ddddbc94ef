-- ===== src/External/Redis.antt =====
-- The Redis client `ioredis`, as a parameter.
pub mod Memory
use saas_chassis.Prelude.{
  ℕ, zero, suc, String, ◌≡◌, Bool, true, false, Option, none, some, List, [], ◌∷◌, ◌++◌, Result, ok,
  err, includes, parse_int, nat_eq, ◌⊎◌, ◌==◌, if◌then◌else◌,
}

-- A call may fail. `value s k` is what the key holds in the state `s`, once expired keys are gone.
-- A cursor is a number; `scan` gives the next one and a batch of keys.
pub record Redis : Type 1 where
  pub Store : Type 0
  pub value : Store → String → Option String
  pub get : String → Store → Result (Option String)
  pub setex : String → ℕ → String → Store → Result (Unit {0}) × Store
  pub del : List String → Store → Result (Unit {0}) × Store
  pub incr : String → Store → Result ℕ × Store
  pub expire : String → ℕ → Store → Result (Unit {0}) × Store
  pub scan : ℕ → String → Store → Result (ℕ × List String)
  pub matches : String → String → Bool

-- The replies of a full iteration of `SCAN` from a cursor back to 0, and the keys of its batches.
pub data Scanned (r : Redis) (pattern : String) (s : r.Store) : ℕ → List String → Type 0 where
  last :
      (cursor : ℕ) (batch : List String)
      → r.scan cursor pattern s ≡ ok (0, batch)
      → Scanned r pattern s cursor batch
  more :
      (cursor next : ℕ) (batch keys : List String)
      → r.scan cursor pattern s ≡ ok (next, batch)
      → nat_eq next 0 ≡ false
      → Scanned r pattern s next keys
      → Scanned r pattern s cursor (batch ++ keys)

-- What the documentation says of the commands: `INCR` counts from a missing key, and keeps the
-- number as its decimal text.
pub record IsRedis (r : Redis) : Type 0 where
  pub get_value :
      (k : String) (s : r.Store) (o : Option String) → r.get k s ≡ ok o → o ≡ r.value s k
  pub setex_value :
      (k v : String) (ttl : ℕ) (s s' : r.Store) (j : String)
      → r.setex k ttl v s ≡ (ok tt, s')
      → r.value s' j ≡ (if k == j then some v else r.value s j)
  pub del_value :
      (ks : List String) (s s' : r.Store) (j : String)
      → r.del ks s ≡ (ok tt, s')
      → r.value s' j ≡ (if includes ks j then none else r.value s j)
  pub incr_counts :
      (k : String) (s s' : r.Store) (n : ℕ)
      → r.incr k s ≡ (ok n, s')
      → ((r.value s k ≡ none) × (n ≡ 1))
        ⊎ ((v : String) × (m : ℕ) × (r.value s k ≡ some v) × (parse_int v ≡ some m) × (n ≡ suc m))
  pub incr_value :
      (k : String) (s s' : r.Store) (n : ℕ)
      → r.incr k s ≡ (ok n, s')
      → (t : String) × (r.value s' k ≡ some t) × (parse_int t ≡ some n)
  pub incr_other :
      (k : String) (s s' : r.Store) (n : ℕ) (j : String)
      → r.incr k s ≡ (ok n, s')
      → (k == j) ≡ false
      → r.value s' j ≡ r.value s j
  -- The removal of the key, which is later for a positive time to live, is left out.
  pub expire_value :
      (k : String) (ttl : ℕ) (s s' : r.Store) (j : String)
      → r.expire k ttl s ≡ (ok tt, s')
      → r.value s' j ≡ r.value s j
  pub scan_all :
      (pattern : String) (s : r.Store) (keys : List String) (k v : String)
      → Scanned r pattern s 0 keys
      → r.value s k ≡ some v
      → r.matches pattern k ≡ true
      → includes keys k ≡ true

-- A Redis that answers each command of the cache.
pub record IsAvailable (r : Redis) : Type 0 where
  pub got : (k : String) (s : r.Store) → (o : Option String) × (r.get k s ≡ ok o)
  pub set : (k v : String) (ttl : ℕ) (s : r.Store) → (r.setex k ttl v s).0 ≡ ok tt
  pub deleted : (ks : List String) (s : r.Store) → (r.del ks s).0 ≡ ok tt
