-- ===== src/Prelude/Frames.antt =====
-- What an action does to the state, whether it returns or throws: a relation of the state before to
-- the state after that holds of each step holds of what is composed of such steps.
use mathlib.Core.Path.{◌≡◌, refl, ◌∙◌}
use mathlib.Core.Logic.{inl, inr}
use mathlib.Core.Bool.{Bool, true, false}
use mathlib.Core.Option.{Option, none, some}
use mathlib.Core.List.{List, [], ◌∷◌}
use saas_chassis.Prelude.Actions.{
  Exception, Result-cases, Action, required, unless, try_catch, ◌>>=◌, ◌>>◌, when, for_each,
}

pub record IsPreorder {W : Type 0} (R : W → W → Type 0) : Type 0 where
  pub reflexive : (w : W) → R w w
  pub transitive : (u v w : W) → R u v → R v w → R u w

-- One part of the state stays as it is.
pub record Same {W S : Type 0} (part : W → S) (w v : W) : Type 0 where
  pub same : part v ≡ part w

pub Same-IsPreorder : {W S : Type 0} (part : W → S) → IsPreorder (Same part)
Same-IsPreorder part = record {
  reflexive = λ w. record { same = refl };
  transitive = λ u v w p q. record { same = q.same ∙ p.same };
}

abbrev pub Steps : {W A : Type 0} (R : W → W → Type 0) → Action W A → Type 0
Steps {W} R m = (w : W) → R w (m w).1

module _ {W : Type 0} {R : W → W → Type 0} (o : IsPreorder R) where
  pub Steps->>= :
      {A B : Type 0} (m : Action W A) (f : A → Action W B)
      → Steps R m
      → ((a : A) → Steps R (f a))
      → Steps R (m >>= f)
  Steps->>= m f km kf w = elim (Result-cases (m w).0) [
    | inl (a, q) ↦ rw q (o.transitive w (m w).1 (f a (m w).1).1 (km w) (kf a (m w).1))
    | inr (e, q) ↦ rw q (km w)
  ]

  pub Steps->> :
      {A B : Type 0} (m : Action W A) (n : Action W B) → Steps R m → Steps R n → Steps R (m >> n)
  Steps->> m n km kn w = elim (Result-cases (m w).0) [
    | inl (a, q) ↦ rw q (o.transitive w (m w).1 (n (m w).1).1 (km w) (kn (m w).1))
    | inr (e, q) ↦ rw q (km w)
  ]

  pub required-Steps :
      {A : Type 0} (found : Option A) (e : Exception) → Steps {W = W} {A = A} R (required found e)
  required-Steps none e w = o.reflexive w
  required-Steps (some a) e w = o.reflexive w

  pub unless-Steps : (b : Bool) (e : Exception) → Steps R (unless b e)
  unless-Steps true e w = o.reflexive w
  unless-Steps false e w = o.reflexive w

  pub when-Steps : (b : Bool) (m : Action W (Unit {0})) → Steps R m → Steps R (when b m)
  when-Steps true m k = k
  when-Steps false m k = o.reflexive

  pub for_each-Steps :
      {X : Type 0} (xs : List X) (f : X → Action W (Unit {0}))
      → ((x : X) → Steps R (f x))
      → Steps R (for_each xs f)
  for_each-Steps [] f k = o.reflexive
  for_each-Steps (x ∷ xs) f k = Steps->> (f x) (for_each xs f) (k x) (for_each-Steps xs f k)

  pub try_catch-Steps :
      {A : Type 0} (m : Action W A) (h : Exception → Action W A)
      → Steps R m
      → ((e : Exception) → Steps R (h e))
      → Steps R (try_catch m h)
  try_catch-Steps m h km kh w = elim (Result-cases (m w).0) [
    | inl (a, q) ↦ rw q (km w)
    | inr (e, q) ↦ rw q (o.transitive w (m w).1 (h e (m w).1).1 (km w) (kh e (m w).1))
  ]
