-- ===== src/External/Repository/Memory.antt =====
-- A table in memory: a list of rows in which a saved row replaces those with its key. It shows
-- that the laws of a repository can hold, and runs the examples.
use mathlib.Core.List.Permᴰ as Permutations
use saas_chassis.Prelude.{
  String, ◌≡◌, refl, ◌↔◌, ◌⊎◌, inl, inr, Bool, true, false, not, none, some, List, [], ◌∷◌, map, ok,
  Elem, elem-map, find_first, keep, any, arith, ap, if◌then◌else◌, Bool-cases, Option-cases, ◌==◌,
  eq_iff, length, take, drop,
}
use saas_chassis.External.Repository.{
  Direction, Repository, IsTable, IsPaged, IsListed, IsAvailable, IsJoined,
}

module _ {Row : Type 0} where
  find_first-some :
      (p : Row → Bool) (s : List Row) (x : Row) → find_first p s ≡ some x → Elem x s × (p x ≡ true)
  find_first-some p [] x h = cc
  find_first-some p (y ∷ s) x h = elim (Bool-cases (p y)) [
    | inl e ↦ (inl (ground arith), ground arith)
    | inr e ↦ let (a, b) = find_first-some p s x (ground arith) in (inr a, b)
  ]

  find_first-none :
      (p : Row → Bool) (s : List Row) (x : Row) → find_first p s ≡ none → Elem x s → p x ≡ false
  find_first-none p [] x h m = elim m [ ]
  find_first-none p (y ∷ s) x h (inl e) = ground arith
  find_first-none p (y ∷ s) x h (inr m) = find_first-none p s x (ground arith) m

  keep-elem :
      (p : Row → Bool) (s : List Row) (x : Row) → Elem x (keep p s) → Elem x s × (p x ≡ true)
  keep-elem p [] x m = elim m [ ]
  keep-elem p (y ∷ s) x m = elim (Bool-cases (p y)) [
    | inl e ↦ elim (rw e at m) [
      | inl q ↦ (inl q, ground arith)
      | inr n ↦ let (a, b) = keep-elem p s x n in (inr a, b)
    ]
    | inr e ↦ let (a, b) = keep-elem p s x (rw e at m) in (inr a, b)
  ]

  elem-keep : (p : Row → Bool) (s : List Row) (x : Row) → Elem x s → p x ≡ true → Elem x (keep p s)
  elem-keep p [] x m h = m
  elem-keep p (y ∷ s) x (inl q) h = rw (let e : p y ≡ true = cc in e) (inl q)
  elem-keep p (y ∷ s) x (inr m) h = elim (Bool-cases (p y)) [
    | inl e ↦ rw e (inr (elem-keep p s x m h))
    | inr e ↦ rw e (elem-keep p s x m h)
  ]

  keep_iff :
      (p : Row → Bool) (s : List Row) (x : Row) → Elem x (keep p s) ↔ (Elem x s × (p x ≡ true))
  keep_iff p s x = (keep-elem p s x, λ m. elem-keep p s x m.0 m.1)

module _ {Row : Type 0} where
  any-eq-true : (p : Row → Bool) (s : List Row) (x : Row) → Elem x s → p x ≡ true → any p s ≡ true
  any-eq-true p [] x m h = elim m [ ]
  any-eq-true p (y ∷ s) x (inl e) h = ground (arith, ap p e)
  any-eq-true p (y ∷ s) x (inr m) h = ground (arith, any-eq-true p s x m h)

  any-eq-false :
      (p : Row → Bool) (s : List Row) → ((x : Row) → Elem x s → p x ≡ false) → any p s ≡ false
  any-eq-false p [] h = refl
  any-eq-false p (y ∷ s) h = ground (arith, h y (inl refl), any-eq-false p s (λ x m. h x (inr m)))

not-eq-true : (b : Bool) → (not b ≡ true) ↔ (b ≡ false)
not-eq-true true = ground arith
not-eq-true false = ground arith

saved :
    {Row : Type 0} {P Q R : Type 0} (x y : Row) (s : List Row)
    → P ↔ Q
    → R ↔ (Elem y s × P)
    → ((y ≡ x) ⊎ R) ↔ ((y ≡ x) ⊎ (Elem y s × Q))
saved x y s p r = (
  λ m. elim m [ inl e ↦ inl e | inr z ↦ inr ((r.0 z).0, p.0 (r.0 z).1) ],
  λ m. elim m [ inl e ↦ inl e | inr z ↦ inr (r.1 (z.0, p.1 z.1)) ],
)

abbrev pub memory : {Row : Type 0} → (Row → Row → Bool) → String → Repository Row
memory {Row} same id = record {
  Store = List Row;
  Has = λ s x. Elem x s;
  new_id = λ s. id;
  find_one = λ p s. ok (find_first p s);
  find = λ p s. ok (keep p s);
  find_and_count =
      λ p order skip count s. ok (take count (drop skip (keep p s)), length (keep p s));
  save = λ x s. (ok tt, x ∷ keep (λ y. not (same x y)) s);
  upsert =
      λ x f s. (ok tt, if any (same x) s then map (λ u. if same x u then f u else u) s else x ∷ s);
  update = λ p f s. (ok tt, map (λ x. if p x then f x else x) s);
  delete = λ p s. (ok tt, keep (λ y. not (p y)) s);
}

-- The table in memory obeys the laws.
pub memory-IsTable :
    {Row : Type 0} (same : Row → Row → Bool) (id : String) → IsTable same (memory same id)
memory-IsTable same id = record {
  find_one_some = λ p s x h. find_first-some p s x (cc);
  find_one_none = λ p s x h m. find_first-none p s x (cc) m;
  find_all = λ p s xs x h. let e : keep p s ≡ xs = cc in rw (← e) (keep_iff p s x);
  save_has = λ x s s' y h.
      let e : x ∷ keep (λ y. not (same x y)) s ≡ s' = cc in
      let k = keep_iff (λ y. not (same x y)) s y in
      rw (← e) (saved x y s (not-eq-true (same x y)) k);
  save_err = λ x s e y h. cc;
  update_err = λ p f s e y h. cc;
  upsert_new = λ x f s s' y absent h.
      let e : (if any (same x) s then map (λ u. if same x u then f u else u) s else x ∷ s) ≡ s' =
        cc in
      rw (← e) (rw (any-eq-false (same x) s absent) (λ m. m, λ m. m));
  upsert_old = λ x f s s' y z has key h.
      let e : (if any (same x) s then map (λ u. if same x u then f u else u) s else x ∷ s) ≡ s' =
        cc in
      rw (← e)
        (rw (any-eq-true (same x) s z has key) (elem-map (λ u. if same x u then f u else u) s y));
  update_has = λ p f s s' y h.
      let e : map (λ x. if p x then f x else x) s ≡ s' = cc in
      rw (← e) (elem-map (λ x. if p x then f x else x) s y);
  delete_has = λ p s s' y h.
      let e : keep (λ y. not (p y)) s ≡ s' = cc in
      let k = keep_iff (λ y. not (p y)) s y in
      let n = not-eq-true (p y) in
      rw (← e) (λ m. ((k.0 m).0, n.0 (k.0 m).1), λ m. k.1 (m.0, n.1 m.1));
  delete_err = λ p s e y h. cc;
}

pub memory-IsPaged :
    {Row : Type 0} (same : Row → Row → Bool) (id : String) (order : List (String × Direction))
    → IsPaged (memory same id) order
memory-IsPaged same id order = record {
  listing = λ p s. keep p s;
  listing_has = λ p s x. keep_iff p s x;
  page_of = λ p skip count s xs n h. (cc, cc);
}

pub memory-IsListed :
    {Row : Type 0} (same : Row → Row → Bool) (id : String) → IsListed (memory same id)
memory-IsListed same id = record {
  rows = λ s. s;
  find_rows = λ p s xs h. (let e : keep p s ≡ xs = cc in rw e (Permutations.refl xs));
}

pub memory-IsAvailable :
    {Row : Type 0} (same : Row → Row → Bool) (id : String) → IsAvailable (memory same id)
memory-IsAvailable same id = record { found = λ p s. (find_first p s, refl); saved = λ x s. refl }

pub memory-IsJoined :
    {Row : Type 0} (same : Row → Row → Bool) (id : String) (key : Row → String)
    → IsJoined (memory same id) key (λ k s. find_first (λ y. key y == k) s)
memory-IsJoined same id key = record {
  joined = λ s x has. elim (Option-cases (find_first (λ y. key y == key x) s)) [
    | inl n ↦
        let e = find_first-none (λ y. key y == key x) s x n has in
        cc ((eq_iff (key x) (key x)).1 refl)
    | inr (y, f) ↦
        let (m, e) = find_first-some (λ y. key y == key x) s y f in
        (y, f, m, (eq_iff (key y) (key x)).0 e)
  ];
}
