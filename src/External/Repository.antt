-- ===== src/External/Repository.antt =====
-- The `Repository<T>` of TypeORM over a PostgreSQL table, as a parameter.
pub mod Continuity
pub mod Lookup
pub mod Memory
use mathlib.Core.List.{Permᴰ}
use saas_chassis.Prelude.{
  ℕ, String, ◌≡◌, ◌↔◌, ◌⊎◌, Bool, true, false, Option, none, some, List, Result, ok, err, Exception,
  Elem, if◌then◌else◌, length, take, drop, keep,
}

pub data Direction : Type 0 where
  ascending : Direction
  descending : Direction

-- A query may fail. `Has s x` says that the table in state `s` holds the row `x`. `new_id` is the
-- key that the database generates for the next insertion. `find_and_count` reads, of the rows that
-- meet a condition, in the order of the columns that it is given, those after the first `skip`, and
-- `take` of them at most, with the number of all. `save` writes the row in place of the
-- one with its unique key, or inserts it; `upsert x f` inserts `x`, or changes the row with the key
-- of `x` by `f`.
pub record Repository (Row : Type 0) : Type 1 where
  pub Store : Type 0
  pub Has : Store → Row → Type 0
  pub new_id : Store → String
  pub find_one : (Row → Bool) → Store → Result (Option Row)
  pub find : (Row → Bool) → Store → Result (List Row)
  pub find_and_count :
      (Row → Bool)
      → (order : List (String × Direction)) → (skip take : ℕ) → Store
      → Result (List Row × ℕ)
  pub save : Row → Store → Result (Unit {0}) × Store
  pub upsert : Row → (Row → Row) → Store → Result (Unit {0}) × Store
  pub update : (Row → Bool) → (Row → Row) → Store → Result (Unit {0}) × Store
  pub delete : (Row → Bool) → Store → Result (Unit {0}) × Store

-- What the documentation says of a table whose unique key is compared by `same`: a query
-- finds rows that meet its condition, a write changes the rows that it names, and a statement that
-- fails changes none.
pub record IsTable {Row : Type 0} (same : Row → Row → Bool) (r : Repository Row) : Type 0 where
  pub find_one_some :
      (p : Row → Bool) (s : r.Store) (x : Row)
      → r.find_one p s ≡ ok (some x)
      → r.Has s x × (p x ≡ true)
  pub find_one_none :
      (p : Row → Bool) (s : r.Store) (x : Row) → r.find_one p s ≡ ok none → r.Has s x → p x ≡ false
  pub find_all :
      (p : Row → Bool) (s : r.Store) (xs : List Row) (x : Row)
      → r.find p s ≡ ok xs
      → Elem x xs ↔ (r.Has s x × (p x ≡ true))
  pub save_has :
      (x : Row) (s s' : r.Store) (y : Row)
      → r.save x s ≡ (ok tt, s')
      → r.Has s' y ↔ ((y ≡ x) ⊎ (r.Has s y × (same x y ≡ false)))
  pub save_err :
      (x : Row) (s : r.Store) (e : Exception) (y : Row)
      → (r.save x s).0 ≡ err e
      → r.Has (r.save x s).1 y ↔ r.Has s y
  pub update_err :
      (p : Row → Bool) (f : Row → Row) (s : r.Store) (e : Exception) (y : Row)
      → (r.update p f s).0 ≡ err e
      → r.Has (r.update p f s).1 y ↔ r.Has s y
  pub upsert_new :
      (x : Row) (f : Row → Row) (s s' : r.Store) (y : Row)
      → ((z : Row) → r.Has s z → same x z ≡ false)
      → r.upsert x f s ≡ (ok tt, s')
      → r.Has s' y ↔ ((y ≡ x) ⊎ r.Has s y)
  pub upsert_old :
      (x : Row) (f : Row → Row) (s s' : r.Store) (y z : Row)
      → r.Has s z
      → same x z ≡ true
      → r.upsert x f s ≡ (ok tt, s')
      → r.Has s' y ↔ ((u : Row) × r.Has s u × (y ≡ (if same x u then f u else u)))
  pub update_has :
      (p : Row → Bool) (f : Row → Row) (s s' : r.Store) (y : Row)
      → r.update p f s ≡ (ok tt, s')
      → r.Has s' y ↔ ((x : Row) × r.Has s x × (y ≡ (if p x then f x else x)))
  pub delete_has :
      (p : Row → Bool) (s s' : r.Store) (y : Row)
      → r.delete p s ≡ (ok tt, s')
      → r.Has s' y ↔ (r.Has s y × (p y ≡ false))
  pub delete_err :
      (p : Row → Bool) (s : r.Store) (e : Exception) (y : Row)
      → (r.delete p s).0 ≡ err e
      → r.Has (r.delete p s).1 y ↔ r.Has s y

-- A table whose rows an order sorts without ties, so that no query with that order may choose
-- between two of them: `listing p s` is the list of those that meet `p`, and a page is a part of it.
pub record IsPaged {Row : Type 0} (r : Repository Row) (order : List (String × Direction))
    : Type 0 where
  pub listing : (Row → Bool) → r.Store → List Row
  pub listing_has :
      (p : Row → Bool) (s : r.Store) (x : Row) → Elem x (listing p s) ↔ (r.Has s x × (p x ≡ true))
  pub page_of :
      (p : Row → Bool) (skip count : ℕ) (s : r.Store) (xs : List Row) (n : ℕ)
      → r.find_and_count p order skip count s ≡ ok (xs, n)
      → (xs ≡ take count (drop skip (listing p s))) × (n ≡ length (listing p s))

-- A table as the list of its rows: a query gives those that meet its condition, in some order.
pub record IsListed {Row : Type 0} (r : Repository Row) : Type 0 where
  pub rows : r.Store → List Row
  pub find_rows :
      (p : Row → Bool) (s : r.Store) (xs : List Row)
      → r.find p s ≡ ok xs
      → Permᴰ xs (keep p (rows s))

-- The JOIN of a foreign key finds a row with that key, where there is one.
pub record IsJoined {Row : Type 0} (r : Repository Row) (key : Row → String)
    (join : String → r.Store → Option Row) : Type 0 where
  pub joined :
      (s : r.Store) (x : Row)
      → r.Has s x
      → (y : Row) × (join (key x) s ≡ some y) × r.Has s y × (key y ≡ key x)

-- A database that answers each query and each save.
pub record IsAvailable {Row : Type 0} (r : Repository Row) : Type 0 where
  pub found : (p : Row → Bool) (s : r.Store) → (o : Option Row) × (r.find_one p s ≡ ok o)
  pub saved : (x : Row) (s : r.Store) → (r.save x s).0 ≡ ok tt
