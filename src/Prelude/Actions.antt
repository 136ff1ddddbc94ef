-- ===== src/Prelude/Actions.antt =====
-- Exceptions, and the asynchronous methods of the services: an action returns or throws, and what
-- it wrote before it threw stays written.
use Prim.Native.String.{String}
use mathlib.Core.Path.{◌≡◌, refl, ap}
use mathlib.Core.Logic.{◌⊎◌, inl, inr}
use mathlib.Core.Bool.{Bool, true, false}
use mathlib.Core.Option.{Option, none, some}
use mathlib.Core.List.{List, [], ◌∷◌}

-- The NestJS exceptions that the services throw, the driver's failed query with its SQLSTATE, and
-- any other error.
pub data Exception : Type 0 where
  bad_request conflict forbidden not_found unauthorized : String → Exception
  query_failed : String → Exception
  error : String → Exception

-- `(err as Error).message`
pub message_of : Exception → String
message_of (bad_request m) = m
message_of (conflict m) = m
message_of (forbidden m) = m
message_of (not_found m) = m
message_of (unauthorized m) = m
message_of (query_failed m) = m
message_of (error m) = m

pub data Result {ℓ} (A : Type ℓ) : Type ℓ where
  ok : A → Result A
  err : Exception → Result A

pub Result-cases {ℓ} :
    {A : Type ℓ} (r : Result A) → ((a : A) × (r ≡ ok a)) ⊎ ((e : Exception) × (r ≡ err e))
Result-cases (ok a) = inl (a, refl)
Result-cases (err e) = inr (e, refl)

abbrev pub Action {ℓ} : Type ℓ → Type ℓ → Type ℓ
Action W A = W → Result A × W

module _ {ℓ} {W A : Type ℓ} where
  abbrev pub pure : A → Action W A
  pure a w = (ok a, w)

  abbrev pub throw : Exception → Action W A
  throw e w = (err e, w)

  -- `if (!value) throw e`
  abbrev pub required : Option A → Exception → Action W A
  required none e w = (err e, w)
  required (some a) e w = (ok a, w)

  abbrev handle_with : Result A → (Exception → Action W A) → Action W A
  handle_with (ok a) h w = (ok a, w)
  handle_with (err e) h w = h e w

  -- `try { m } catch (e) { h(e) }`
  abbrev pub try_catch : Action W A → (Exception → Action W A) → Action W A
  try_catch m h w = let (r, w') = m w in handle_with r h w'

module _ {ℓ} {W A B : Type ℓ} where
  abbrev pub continue : Result A → (A → Action W B) → Action W B
  continue (ok a) f w = f a w
  continue (err e) f w = (err e, w)

  infixl 10 ◌>>=◌ ◌>>◌
  abbrev pub ◌>>=◌ : Action W A → (A → Action W B) → Action W B
  ◌>>=◌ m f w = let (r, w') = m w in continue r f w'

  abbrev pub ◌>>◌ : Action W A → Action W B → Action W B
  ◌>>◌ m n w = let (r, w') = m w in continue r (λ _. n) w'

module _ {ℓ} {W : Type ℓ} where
  abbrev pub unless : Bool → Exception → Action W (Unit {ℓ})
  unless true e w = (ok tt, w)
  unless false e w = (err e, w)

  -- `if (b) m`
  abbrev pub when : Bool → Action W (Unit {ℓ}) → Action W (Unit {ℓ})
  when true m w = m w
  when false m w = (ok tt, w)

  abbrev pub for_each {κ} : {X : Type κ} → List X → (X → Action W (Unit {ℓ})) → Action W (Unit {ℓ})
  for_each [] f w = (ok tt, w)
  for_each (x ∷ xs) f w = (f x >> for_each xs f) w

module _ {ℓ} {W A B : Type ℓ} where
  continue-eq-ok :
      (r : Result A) (f : A → Action W B) (w w' : W) (b : B)
      → continue r f w ≡ (ok b, w')
      → (a : A) × (r ≡ ok a) × (f a w ≡ (ok b, w'))
  continue-eq-ok (ok a) f w w' b h = (a, refl, h)
  continue-eq-ok (err e) f w w' b h = cc

  -- Inversion of a successful bind.
  pub >>=-eq-ok :
      (m : Action W A) (f : A → Action W B) (w w' : W) (b : B)
      → (m >>= f) w ≡ (ok b, w')
      → (a : A) × (v : W) × (m w ≡ (ok a, v)) × (f a v ≡ (ok b, w'))
  >>=-eq-ok m f w w' b h =
      let (a, q, k) = continue-eq-ok (m w).0 f (m w).1 w' b h in
      (a, (m w).1, ap (λ r. (r, (m w).1)) q, k)

  continue-eq-err :
      (r : Result A) (f : A → Action W B) (w w' : W) (e : Exception)
      → continue r f w ≡ (err e, w')
      → ((r ≡ err e) × (w' ≡ w)) ⊎ ((a : A) × (r ≡ ok a) × (f a w ≡ (err e, w')))
  continue-eq-err (ok a) f w w' e h = inr (a, refl, h)
  continue-eq-err (err x) f w w' e h = inl (cc, cc)

  -- Inversion of a bind that throws.
  pub >>=-eq-err :
      (m : Action W A) (f : A → Action W B) (w w' : W) (e : Exception)
      → (m >>= f) w ≡ (err e, w')
      → (((m w).0 ≡ err e) × (w' ≡ (m w).1))
        ⊎ ((a : A) × ((m w).0 ≡ ok a) × (f a (m w).1 ≡ (err e, w')))
  >>=-eq-err m f w w' e h = continue-eq-err (m w).0 f (m w).1 w' e h
