-- ===== src/Sdk/Guards/Forwarding.antt =====
-- The headers that the gateway writes with `strings.Join(xs, ",")`, and what the SDK's guards read
-- back.
use Prim.Native.Char.{code}
use Prim.Native.String
use mathlib.Core.Path.{subst}
use text.Mathlib.TextLemmas.{nil-append, cons-append}
use saas_chassis.Prelude.{
  ◌≡◌, ◌≢◌, refl, ap, ◌↔◌, ◌⊎◌, inl, inr, String, Bool, true, not, ◌&&◌, some, Option, none, List,
  [], ◌∷◌, ok, arith, nat_eq, includes, includes_iff, same_text-eq, Elem, Bool-cases,
}
use saas_chassis.Sdk.Guards.{Headers, split, says_true, sdk_permissions, join}

-- A text with no comma.
abbrev pub comma_free : String → Bool
comma_free String.[] = true
comma_free (String.◌∷◌ c s) = not (nat_eq (code c) b',') && comma_free s

-- Each text of a list has no comma.
abbrev pub CommaFree : List String → Type 0
CommaFree [] = Unit
CommaFree (s ∷ ss) = (comma_free s ≡ true) × CommaFree ss

split-word : (s : String) → comma_free s ≡ true → split s ≡ s ∷ []
unfolding split
split-word String.[] h = refl
split-word (String.◌∷◌ c s) h = elim (Bool-cases (nat_eq (code c) b',')) [
  | inl e ↦ ground arith
  | inr e ↦ rw e (rw (split-word s (ground arith)) refl)
]

split-append :
    (s r : String) → comma_free s ≡ true → split (String.◌++◌ s (String.◌++◌ "," r)) ≡ s ∷ split r
unfolding split
split-append String.[] r h = rw nil-append (rw (cons-append _ "" r) (rw nil-append refl))
split-append (String.◌∷◌ c s) r h = elim (Bool-cases (nat_eq (code c) b',')) [
  | inl e ↦ ground arith
  | inr e ↦
      rw (cons-append c s (String.◌++◌ "," r)) (rw e (rw (split-append s r (ground arith)) refl))
]

-- Splitting what was joined gives the list back, where it has a text and no text has a comma.
pub split-join :
    (s : String) (ss : List String) → CommaFree (s ∷ ss) → split (join (s ∷ ss)) ≡ s ∷ ss
split-join s [] h = split-word s h.0
split-join s (t ∷ ss) h =
    rw (split-append s (join (t ∷ ss)) h.0) (ap (λ xs. s ∷ xs) (split-join t ss h.1))

-- A permission that is not the empty text is read back exactly where it was joined.
includes-split-join :
    (p : String) (ps : List String)
    → p ≢ ""
    → CommaFree ps
    → (includes (split (join ps)) p ≡ true) ↔ Elem p ps
unfolding split
includes-split-join p [] asked free = (
  λ e. elim ((includes_iff ("" ∷ []) p).0 e) [
    | inl same ↦ absurd (asked same)
    | inr n ↦ elim n [ ]
  ],
  λ n. elim n [ ],
)
includes-split-join p (q ∷ ps) asked free = rw (split-join q ps free) (includes_iff (q ∷ ps) p)

-- With the header that the gateway writes for a user's permissions, which may be none, and of which
-- none has a comma, the guard admits a request exactly when the route asks for no permission or for
-- the empty text, the header of platform administrators is the text true, or the permission that
-- the route asks for is one of the user's.
pub sdk_permissions-join_iff :
    (required : Option String) (ps : List String) (h : Headers)
    → CommaFree ps
    → h.permissions ≡ some (join ps)
    → (sdk_permissions required h ≡ ok true) ↔ (
        (required ≡ none)
        ⊎ ((required ≡ some "")
            ⊎ ((h.is_platform_admin ≡ some "true")
                ⊎ ((p : String) × (required ≡ some p) × Elem p ps))))
unfolding sdk_permissions
sdk_permissions-join_iff none ps h free header = (λ e. inl refl, λ m. refl)
sdk_permissions-join_iff (some String.[]) ps h free header = (λ e. inr (inl refl), λ m. refl)
sdk_permissions-join_iff (some (String.◌∷◌ c s)) ps h free header =
    let p = String.◌∷◌ c s in
    let found = includes-split-join p ps (λ e. cc) free in
    (
      λ e. elim (Bool-cases (says_true h.is_platform_admin)) [
        | inl admin ↦ inr (inr (inl (same_text-eq h.is_platform_admin "true" admin)))
        | inr plain ↦ elim (Bool-cases (includes (split (join ps)) p)) [
          | inl member ↦ inr (inr (inr (p, refl, found.0 member)))
          | inr other ↦ cc (rw (plain, header, other) at e)
        ]
      ],
      λ m. elim m [
        | inl n ↦ cc
        | inr (inl n) ↦ cc
        | inr (inr (inl admin)) ↦ rw admin refl
        | inr (inr (inr (q, e, member))) ↦ elim (Bool-cases (says_true h.is_platform_admin)) [
          | inl admin ↦ rw admin refl
          | inr plain ↦
              let same : q ≡ p = cc in
              rw (plain, header, found.1 (subst (λ u. Elem u ps) same member)) refl
        ]
      ],
    )
