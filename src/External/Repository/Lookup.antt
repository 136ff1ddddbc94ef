-- ===== src/External/Repository/Lookup.antt =====
-- What a query by a unique key returns after a write.
use mathlib.Core.Path.{subst}
use saas_chassis.Prelude.{
  ◌≡◌, ◌↔◌, refl, ap, ◌∙◌, sym, inl, inr, Bool, true, false, Option, none, some, ok, Result-cases,
  Bool-cases, if◌then◌else◌,
}
use saas_chassis.External.Repository.{Repository, IsTable}

module _ {Row : Type 0} (same : Row → Row → Bool) (r : Repository Row) where
  -- Two rows with one key are one row: the UNIQUE constraint.
  pub record IsUnique (s : r.Store) : Type 0 where
    pub at : (x y : Row) → r.Has s x → r.Has s y → same x y ≡ true → x ≡ y

module _ {Row : Type 0} {same : Row → Row → Bool} {r : Repository Row} (t : IsTable same r) where
  -- A query by a key that the saved row has finds the saved row.
  pub find_one-save_self :
      (p : Row → Bool) (x : Row) (s s' : r.Store) (found : Option Row)
      → ((y : Row) → same x y ≡ p y)
      → p x ≡ true
      → r.save x s ≡ (ok tt, s')
      → r.find_one p s' ≡ ok found
      → found ≡ some x
  find_one-save_self p x s s' none key px saved f =
      let e = t.find_one_none p s' x f ((t.save_has x s s' x saved).1 (inl refl)) in cc
  find_one-save_self p x s s' (some y) key px saved f =
      let (has, py) = t.find_one_some p s' y f in
      elim ((t.save_has x s s' y saved).0 has) [ inl e ↦ ap some e | inr (old, other) ↦ cc (key y) ]

  -- To save a stored row as it is, where no other row has its key, changes no row, whether or not
  -- the database answers.
  pub save_self :
      (x y : Row) (s : r.Store) → IsUnique same r s → r.Has s x → r.Has (r.save x s).1 y ↔ r.Has s y
  save_self x y s unique old = elim (Result-cases (r.save x s).0) [
    | inr (e, k) ↦ t.save_err x s e y k
    | inl (_, k) ↦
        let rows = t.save_has x s (r.save x s).1 y (ap (λ o. (o, (r.save x s).1)) k) in
        (
          λ has. elim (rows.0 has) [
            | inl e ↦ subst (r.Has s) (sym e) old
            | inr (before, _) ↦ before
          ],
          λ has. elim (Bool-cases (same x y)) [
            | inl e ↦ rows.1 (inl (sym (unique.at x y old has e)))
            | inr e ↦ rows.1 (inr (has, e))
          ],
        )
  ]

  -- A query that the saved row does not meet, nor a row with its key, finds what it found.
  pub find_one-save_ne :
      (p : Row → Bool) (x : Row) (s s' : r.Store) (found found' : Option Row)
      → ((y z : Row) → p y ≡ true → p z ≡ true → same y z ≡ true)
      → ((y : Row) → p y ≡ true → same x y ≡ false)
      → p x ≡ false
      → IsUnique same r s
      → r.save x s ≡ (ok tt, s')
      → r.find_one p s ≡ ok found
      → r.find_one p s' ≡ ok found'
      → found' ≡ found
  find_one-save_ne p x s s' none none key other px u saved f f' = refl
  find_one-save_ne p x s s' none (some z) key other px u saved f f' =
      let (has, pz) = t.find_one_some p s' z f' in
      elim ((t.save_has x s s' z saved).0 has) [
        | inl e ↦ cc (ap p e)
        | inr (old, _) ↦ let e = t.find_one_none p s z f old in cc
      ]
  find_one-save_ne p x s s' (some y) none key other px u saved f f' =
      let (has, py) = t.find_one_some p s y f in
      let e = t.find_one_none p s' y f' ((t.save_has x s s' y saved).1 (inr (has, other y py))) in
      cc
  find_one-save_ne p x s s' (some y) (some z) key other px u saved f f' =
      let (has_y, py) = t.find_one_some p s y f in
      let (has_z, pz) = t.find_one_some p s' z f' in
      elim ((t.save_has x s s' z saved).0 has_z) [
        | inl e ↦ cc (ap p e)
        | inr (old, _) ↦ ap some (u.at z y old has_y (key z y pz py))
      ]

  -- Saving keeps the key unique, where `same` compares keys.
  pub save-IsUnique :
      (x : Row) (s s' : r.Store)
      → ((y z : Row) → same y z ≡ true → same z y ≡ true)
      → r.save x s ≡ (ok tt, s')
      → IsUnique same r s
      → IsUnique same r s'
  save-IsUnique x s s' symmetric saved u = record {
    at = λ y z hy hz e. elim ((t.save_has x s s' y saved).0 hy) [
      | inl ey ↦ elim ((t.save_has x s s' z saved).0 hz) [
        | inl ez ↦ ey ∙ sym ez
        | inr (old, differs) ↦ cc
      ]
      | inr (old_y, differs_y) ↦ elim ((t.save_has x s s' z saved).0 hz) [
        | inl ez ↦ cc (symmetric y z e)
        | inr (old_z, _) ↦ u.at y z old_y old_z e
      ]
    ];
  }

module _ {Row : Type 0} {same : Row → Row → Bool} {r : Repository Row} (t : IsTable same r)
    (s : r.Store) (y : Row) where
  -- A save changes no row but one with the saved key.
  pub save-others :
      (x : Row) → same x y ≡ false → (y ≡ x → same x y ≡ true) → r.Has (r.save x s).1 y ↔ r.Has s y
  save-others x differs own = elim (Result-cases (r.save x s).0) [
    | inr (e, q) ↦ t.save_err x s e y q
    | inl (_, q) ↦
        let saved = t.save_has x s (r.save x s).1 y (ap (λ o. (o, (r.save x s).1)) q) in
        (
          λ has. elim (saved.0 has) [ inl e ↦ cc (own e) | inr (old, _) ↦ old ],
          λ old. saved.1 (inr (old, differs)),
        )
  ]

  pub delete-others : (p : Row → Bool) → p y ≡ false → r.Has (r.delete p s).1 y ↔ r.Has s y
  delete-others p out = elim (Result-cases (r.delete p s).0) [
    | inr (e, q) ↦ t.delete_err p s e y q
    | inl (_, q) ↦
        let gone = t.delete_has p s (r.delete p s).1 y (ap (λ o. (o, (r.delete p s).1)) q) in
        (λ has. (gone.0 has).0, λ old. gone.1 (old, out))
  ]

-- Each row of the table has the property.
pub record Every {Row : Type 0} (r : Repository Row) (P : Row → Type 0) (s : r.Store) : Type 0 where
  pub at : (x : Row) → r.Has s x → P x

module _ {Row : Type 0} {same : Row → Row → Bool} {r : Repository Row} (t : IsTable same r)
    (P : Row → Type 0) where
  -- A write keeps a property of the rows that what it writes has, whether it returns or fails.
  pub save-Every : (x : Row) (s : r.Store) → P x → Every r P s → Every r P (r.save x s).1
  save-Every x s px h = elim (Result-cases (r.save x s).0) [
    | inl (_, q) ↦ record {
      at = λ y has.
          elim ((t.save_has x s (r.save x s).1 y (ap (λ o. (o, (r.save x s).1)) q)).0 has) [
            | inl e ↦ subst P (sym e) px
            | inr (old, _) ↦ h.at y old
          ];
    }
    | inr (e, q) ↦ record { at = λ y has. h.at y ((t.save_err x s e y q).0 has) }
  ]

  pub update-Every :
      (p : Row → Bool) (f : Row → Row) (s : r.Store)
      → ((x : Row) → p x ≡ true → P x → P (f x))
      → Every r P s
      → Every r P (r.update p f s).1
  update-Every p f s pf h = elim (Result-cases (r.update p f s).0) [
    | inl (_, q) ↦ record {
      at = λ y has.
          let (x, old, e) =
            (t.update_has p f s (r.update p f s).1 y (ap (λ o. (o, (r.update p f s).1)) q)).0 has in
          subst P (sym e) (either (p x) x (h.at x old) (λ meets. pf x meets (h.at x old)));
    }
    | inr (e, q) ↦ record { at = λ y has. h.at y ((t.update_err p f s e y q).0 has) }
  ]
    where
      either : (b : Bool) (x : Row) → P x → (b ≡ true → P (f x)) → P (if b then f x else x)
      either true x old new = new refl
      either false x old new = old
