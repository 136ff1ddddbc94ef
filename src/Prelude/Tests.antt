-- ===== src/Prelude/Tests.antt =====
-- Boolean tests on the native numbers, the conditional, and `a ?? b`.
use Prim.Native.Nat.{ℕ, ◌≤◌, ◌<◌, compare, Ordering}
use Prim.Native.String
use mathlib.Core.List.{List, [], ◌∷◌}
use Prim.Native.String.{String}
use mathlib.Core.Path.{◌≡◌, refl, ap}
use mathlib.Core.Logic.{◌⊎◌, inl, inr}
use mathlib.Core.Bool.{Bool, true, false}
use mathlib.Core.Option.{Option, none, some}
use native.Mathlib.Omega.{arith}
use text.Mathlib.Text.{◌==◌}
use text.Mathlib.TextEquality.{eq_iff}

abbrev pub ltb : ℕ → ℕ → Bool
ltb a b = elim (compare a b) [ Ordering.lt ↦ true | _ ↦ false ]

abbrev pub leb : ℕ → ℕ → Bool
leb a b = elim (compare a b) [ Ordering.gt ↦ false | _ ↦ true ]

-- Equality of numbers; that of texts is `◌==◌`.
abbrev pub nat_eq : ℕ → ℕ → Bool
nat_eq a b = elim (compare a b) [ Ordering.eq ↦ true | _ ↦ false ]

infix 1 if◌then◌else◌
abbrev pub if◌then◌else◌ {ℓ} : {A : Type ℓ} → Bool → A → A → A
if true then x else y = x
if false then x else y = y

pub ltb→lt : (a b : ℕ) → ltb a b ≡ true → a < b
ltb→lt a b h = ground arith

pub lt→ltb : (a b : ℕ) → a < b → ltb a b ≡ true
lt→ltb a b h = ground arith

pub leb→le : (a b : ℕ) → leb a b ≡ true → a ≤ b
leb→le a b h = ground arith

pub not-leb→lt : (a b : ℕ) → leb a b ≡ false → b < a
not-leb→lt a b h = ground arith

-- To split on a computed value and keep the equation.
pub Bool-cases : (b : Bool) → (b ≡ true) ⊎ (b ≡ false)
Bool-cases true = inl refl
Bool-cases false = inr refl

module _ {ℓ} {A : Type ℓ} where
  pub Option-cases : (o : Option A) → (o ≡ none) ⊎ ((a : A) × (o ≡ some a))
  Option-cases none = inl refl
  Option-cases (some a) = inr (a, refl)

  -- `o ?? d`
  abbrev pub or_else : Option A → A → A
  or_else none d = d
  or_else (some a) d = a

  abbrev pub is_some : Option A → Bool
  is_some none = false
  is_some (some a) = true

-- `s ? … : …` on a text: the empty text is falsy.
abbrev pub truthy : Option String → Bool
truthy none = false
truthy (some String.[]) = false
truthy (some (String.◌∷◌ c s)) = true

-- A template text, piece by piece.
abbrev pub template : List String → String
template [] = ""
template (s ∷ []) = s
template (s ∷ t ∷ r) = String.◌++◌ s (template (t ∷ r))

-- `a === b` on `string | null`.
abbrev pub same_text : Option String → Option String → Bool
same_text none none = true
same_text (some a) (some b) = a == b
same_text _ _ = false

pub same_text-eq : (o : Option String) (id : String) → same_text o (some id) ≡ true → o ≡ some id
same_text-eq none id h = cc
same_text-eq (some a) id h = ap some ((eq_iff a id).0 h)

-- `o || d`
abbrev pub or_falsy : Option String → String → String
or_falsy o d = if truthy o then or_else o d else d

pub or_falsy-truthy :
    (o : Option String) (d t : String) → or_falsy o d ≡ t → truthy o ≡ true → o ≡ some t
or_falsy-truthy none d t h e = cc
or_falsy-truthy (some a) d t h e = ap some (let k : a ≡ t = rw e at h in k)
