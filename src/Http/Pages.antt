-- ===== src/Http/Pages.antt =====
-- services/tenant-manager/src/common/dto/api-response.dto.ts and the query numbers of the
-- controllers: every text is read as a valid page and limit, and the pages that `totalPages` counts
-- are together the whole list.
use native.Mathlib.Nat.{div-add-mod, mod-lt, mul_comm, suc-mul}
use native.Mathlib.Numerals.{unary_clauses}
use saas_chassis.Prelude.{
  ℕ, zero, suc, ◌+◌, ◌-◌, ◌*◌, ◌/◌, ◌≤◌, ◌≡◌, refl, ap, sym, ◌∙◌, String, Option, none, some, List,
  [], ◌∷◌, ◌++◌, arith, length, take, drop, or_else,
}
use saas_chassis.Http.{
  ceil_div, at_least_one, page_number, limit_number, ℤ, pos, negsuc, parse_integer,
}

at_least_one-le : (d : ℕ) (n : Option ℤ) → 1 ≤ d → 1 ≤ at_least_one d n
at_least_one-le d none h = h
at_least_one-le d (some (pos zero)) h = h
at_least_one-le d (some (pos (suc n))) h = omega arith
at_least_one-le d (some (negsuc n)) h = omega arith

-- Whatever the text of a query, or none, the page is at least 1 and the limit between 1 and 100.
pub query_numbers-bounds :
    (page limit : Option String)
    → (1 ≤ page_number page) × (1 ≤ limit_number limit) × (limit_number limit ≤ 100)
unfolding page_number limit_number
query_numbers-bounds page limit =
    let p = at_least_one-le 1 (parse_integer (or_else page "1")) (omega arith) in
    let l = at_least_one-le 20 (parse_integer (or_else limit "20")) (omega arith) in
    (p, ground arith, ground arith)

module _ {ℓ} {A : Type ℓ} where
  -- The rows of a page: `skip: (page - 1) * limit, take: limit`.
  abbrev pub rows_of : (page limit : ℕ) → List A → List A
  rows_of page limit xs = take limit (drop ((page - 1) * limit) xs)

  take-drop : (n m : ℕ) (xs : List A) → take (m + n) xs ≡ take m xs ++ take n (drop m xs)
  take-drop n zero xs = rw (let e : 0 + n ≡ n = omega arith in e) refl
  take-drop zero (suc m) [] = simp unary_clauses refl
  take-drop (suc n) (suc m) [] = simp unary_clauses refl
  take-drop n (suc m) (x ∷ xs) =
      rw (let e : suc m + n ≡ suc (m + n) = omega arith in e) (ap (λ ys. x ∷ ys) (take-drop n m xs))

  take-length : (n : ℕ) (xs : List A) → length xs ≤ n → take n xs ≡ xs
  take-length zero [] h = refl
  take-length (suc n) [] h = refl
  take-length zero (x ∷ xs) h = ground arith
  take-length (suc n) (x ∷ xs) h = ap (λ ys. x ∷ ys) (take-length n xs (ground arith))

  -- The pages 1 to n, one after the other.
  abbrev pub first_pages : (n limit : ℕ) → List A → List A
  first_pages zero limit xs = []
  first_pages (suc n) limit xs = first_pages n limit xs ++ rows_of (suc n) limit xs

  first_pages-eq-take : (n limit : ℕ) (xs : List A) → first_pages n limit xs ≡ take (n * limit) xs
  first_pages-eq-take zero limit xs = rw (let e : 0 * limit ≡ 0 = omega arith in e) refl
  first_pages-eq-take (suc n) limit xs =
      let page : suc n - 1 ≡ n = omega arith in
      rw page (
        rw (suc-mul n limit)
          (rw (first_pages-eq-take n limit xs) (sym (take-drop limit (n * limit) xs))))

module _ (a b : ℕ) (h : 1 ≤ b) where
  le-ceil_div : a ≤ ceil_div a b * b
  le-ceil_div =
      let parts = div-add-mod (a + (b - 1)) b in
      let rest = mod-lt (a + (b - 1)) {m = b} (omega arith) in
      rw (mul_comm ((a + (b - 1)) / b) b) (omega (arith, parts, rest))

-- The pages that `totalPages` counts for a limit of at least 1, read in order, are the whole list.
pub first_pages-ceil_div {ℓ} :
    {A : Type ℓ} (limit : ℕ) (xs : List A)
    → 1 ≤ limit
    → first_pages (ceil_div (length xs) limit) limit xs ≡ xs
first_pages-ceil_div limit xs h =
    first_pages-eq-take (ceil_div (length xs) limit) limit xs
    ∙ take-length (ceil_div (length xs) limit * limit) xs (le-ceil_div (length xs) limit h)
