-- ===== src/Prelude/Lists.antt =====
-- Lists: membership and "for all" by recursion, and the array methods of the source.
use Prim.Native.Nat.{ℕ, zero, suc, ◌+◌, ◌≤◌}
use Prim.Native.String.{String}
use mathlib.Core.Path.{◌≡◌, refl, sym}
use mathlib.Core.Logic.{◌⊎◌, inl, inr, ◌↔◌}
use mathlib.Core.Bool.{Bool, true, false, ◌&&◌, ◌||◌}
use mathlib.Core.Option.{Option, none, some}
use mathlib.Core.List.{List, [], ◌∷◌, ◌++◌, map}
use native.Mathlib.Omega.{arith}
use text.Mathlib.Text.{◌==◌}
use text.Mathlib.TextEquality.{eq_iff}
use saas_chassis.Prelude.Tests.{if◌then◌else◌, Bool-cases}

module _ {ℓ} {A : Type ℓ} where
  abbrev pub length : List A → ℕ
  length [] = 0
  length (x ∷ xs) = suc (length xs)

  pub length-append : (xs ys : List A) → length (xs ++ ys) ≡ length xs + length ys
  length-append [] ys = omega arith
  length-append (x ∷ xs) ys = omega (arith, length-append xs ys)

  abbrev pub take : ℕ → List A → List A
  take zero xs = []
  take (suc n) [] = []
  take (suc n) (x ∷ xs) = x ∷ take n xs

  abbrev pub drop : ℕ → List A → List A
  drop zero xs = xs
  drop (suc n) [] = []
  drop (suc n) (x ∷ xs) = drop n xs

  -- `xs.find(p)`
  abbrev pub find_first : (A → Bool) → List A → Option A
  find_first p [] = none
  find_first p (x ∷ xs) = if p x then some x else find_first p xs

  -- `xs.filter(p)`
  abbrev pub keep : (A → Bool) → List A → List A
  keep p [] = []
  keep p (x ∷ xs) = if p x then x ∷ keep p xs else keep p xs

  -- `xs.some(p)` and `xs.every(p)`
  abbrev pub any : (A → Bool) → List A → Bool
  any p [] = false
  any p (x ∷ xs) = p x || any p xs

  abbrev pub all : (A → Bool) → List A → Bool
  all p [] = true
  all p (x ∷ xs) = p x && all p xs

-- `xs.includes(s)`
abbrev pub includes : List String → String → Bool
includes [] s = false
includes (x ∷ xs) s = x == s || includes xs s

-- The library's `Mem` without its truncation.
abbrev pub Elem : {A : Type 0} → A → List A → Type 0
Elem x [] = ⊥
Elem x (y ∷ ys) = (x ≡ y) ⊎ Elem x ys

module _ {A : Type 0} where
  pub elem-drop : (n : ℕ) (xs : List A) (x : A) → Elem x (drop n xs) → Elem x xs
  elem-drop zero xs x m = m
  elem-drop (suc n) [] x m = m
  elem-drop (suc n) (y ∷ xs) x m = inr (elem-drop n xs x m)

  pub elem-take : (n : ℕ) (xs : List A) (x : A) → Elem x (take n xs) → Elem x xs
  elem-take zero xs x m = elim m [ ]
  elem-take (suc n) [] x m = m
  elem-take (suc n) (y ∷ xs) x m = elim m [ inl e ↦ inl e | inr k ↦ inr (elem-take n xs x k) ]

  pub length-take : (n : ℕ) (xs : List A) → length (take n xs) ≤ n
  length-take zero xs = omega arith
  length-take (suc n) [] = omega arith
  length-take (suc n) (x ∷ xs) = omega (arith, length-take n xs)

pub elem-map :
    {A B : Type 0} (f : A → B) (xs : List A) (y : B)
    → Elem y (map f xs) ↔ ((x : A) × Elem x xs × (y ≡ f x))
elem-map f [] y = (λ m. elim m [ ], λ m. elim (m.1) [ ])
elem-map f (z ∷ xs) y = (
  λ m. elim m [
    | inl q ↦ (z, inl refl, q)
    | inr n ↦ let (x, a, b) = (elem-map f xs y).0 n in (x, inr a, b)
  ],
  λ (x, m, q). elim m [ inl e ↦ inl (cc) | inr n ↦ inr ((elem-map f xs y).1 (x, n, q)) ],
)

pub includes_iff : (xs : List String) (s : String) → (includes xs s ≡ true) ↔ Elem s xs
includes_iff [] s = (λ h. cc, λ m. elim m [ ])
includes_iff (x ∷ xs) s = (
  λ h. elim (Bool-cases (x == s)) [
    | inl e ↦ inl (sym ((eq_iff x s).0 e))
    | inr e ↦ inr ((includes_iff xs s).0 (rw e at h))
  ],
  λ m. elim m [
    | inl e ↦ rw ((eq_iff x s).1 (sym e))
    | inr n ↦ elim (Bool-cases (x == s)) [ inl e ↦ rw e | inr e ↦ rw e ((includes_iff xs s).1 n) ]
  ],
)

module _ {ℓ κ} {A : Type ℓ} (P : A → Type κ) where
  abbrev pub All : List A → Type κ
  All [] = Unit
  All (x ∷ xs) = P x × All xs
