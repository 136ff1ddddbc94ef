-- ===== src/External/Repository/Continuity.antt =====
-- Rows that a write replaces by rows that continue them, over a table with a unique key.
use saas_chassis.Prelude.{
  ◌≡◌, refl, ap, ◌∙◌, sym, inl, inr, Bool, true, false, Result-cases, Bool-cases, ok, if◌then◌else◌,
  arith, none, some, IsPreorder,
}
use saas_chassis.External.Repository.{Repository, IsTable}
use saas_chassis.External.Repository.Lookup.{IsUnique, save-IsUnique}

module _ {Row : Type 0} (same : Row → Row → Bool) (r : Repository Row)
    (C : Row → Row → Type 0) where
  -- The key stays unique, and each row has one that continues it.
  pub record Continues (s s' : r.Store) : Type 0 where
    pub unique : IsUnique same r s → IsUnique same r s'
    pub kept : IsUnique same r s → (x : Row) → r.Has s x → (y : Row) × r.Has s' y × C x y

  pub Continues-IsPreorder : IsPreorder C → IsPreorder Continues
  Continues-IsPreorder o = record {
    reflexive = λ s. record { unique = λ u. u; kept = λ u x has. (x, has, o.reflexive x) };
    transitive = λ s t v p q. record {
      unique = λ u. q.unique (p.unique u);
      kept = λ u x has.
          let (y, has_y, xy) = p.kept u x has in
          let (z, has_z, yz) = q.kept (p.unique u) y has_y in (z, has_z, o.transitive x y z xy yz);
    };
  }

module _ {Row : Type 0} {same : Row → Row → Bool} {r : Repository Row} (t : IsTable same r)
    {C : Row → Row → Type 0} (o : IsPreorder C) where
  -- The same rows in another state.
  same_rows :
      (s s' : r.Store)
      → ((y : Row) → r.Has s' y → r.Has s y)
      → ((y : Row) → r.Has s y → r.Has s' y)
      → Continues same r C s s'
  same_rows s s' back forth = record {
    unique = λ u. record { at = λ y z hy hz k. u.at y z (back y hy) (back z hz) k };
    kept = λ u y has. (y, forth y has, o.reflexive y);
  }

  -- A save of a row that continues each row with its key, whether it returns or fails.
  pub save-Continues :
      (symmetric : (y z : Row) → same y z ≡ true → same z y ≡ true) (m : Row) (s : r.Store)
      → (IsUnique same r s → (x : Row) → r.Has s x → same m x ≡ true → C x m)
      → Continues same r C s (r.save m s).1
  save-Continues symmetric m s over = elim (Result-cases (r.save m s).0) [
    | inr (e, q) ↦
        same_rows s (r.save m s).1 (λ y. (t.save_err m s e y q).0) (λ y. (t.save_err m s e y q).1)
    | inl (_, q) ↦
        let k = ap (λ i. (i, (r.save m s).1)) q in
        let now = λ (y : Row). t.save_has m s (r.save m s).1 y k in
        record {
          unique = save-IsUnique t m s (r.save m s).1 symmetric k;
          kept = λ u x has. elim (Bool-cases (same m x)) [
            | inl own ↦ (m, (now m).1 (inl refl), over u x has own)
            | inr other ↦ (x, (now x).1 (inr (has, other)), o.reflexive x)
          ];
        }
  ]

  -- A save in place of the row that a query has found.
  pub save_found-Continues :
      (symmetric : (y z : Row) → same y z ≡ true → same z y ≡ true) (p : Row → Bool) (old m : Row)
      (s : r.Store)
      → r.find_one p s ≡ ok (some old)
      → C old m
      → ((x : Row) → same m x ≡ true → same old x ≡ true)
      → Continues same r C s (r.save m s).1
  save_found-Continues symmetric p old m s q c key =
      save-Continues symmetric m s λ u x has own.
        let e = u.at old x (t.find_one_some p s old q).0 has (key x own) in rw (← e) c

  -- A save after a query that has found no row with the key.
  pub save_new-Continues :
      (symmetric : (y z : Row) → same y z ≡ true → same z y ≡ true) (p : Row → Bool) (m : Row)
      (s : r.Store)
      → r.find_one p s ≡ ok none
      → ((x : Row) → same m x ≡ true → p x ≡ true)
      → Continues same r C s (r.save m s).1
  save_new-Continues symmetric p m s q key =
      save-Continues symmetric m s
        λ u x has own. let absent = t.find_one_none p s x q has in cc (key x own)

  -- An update that keeps the key and continues each row that it changes, whether it returns or
  -- fails.
  pub update-Continues :
      (p : Row → Bool) (f : Row → Row) (s : r.Store)
      → ((x : Row) → C x (f x))
      → ((x y : Row) → same (f x) y ≡ same x y)
      → ((x y : Row) → same x (f y) ≡ same x y)
      → Continues same r C s (r.update p f s).1
  update-Continues p f s over left right = elim (Result-cases (r.update p f s).0) [
    | inr (e, q) ↦
        same_rows s (r.update p f s).1 (λ y. (t.update_err p f s e y q).0)
          (λ y. (t.update_err p f s e y q).1)
    | inl (_, q) ↦
        let now = λ (y : Row).
          t.update_has p f s (r.update p f s).1 y (ap (λ i. (i, (r.update p f s).1)) q) in
        record {
          unique = λ u. record {
            at = λ y z hy hz k.
                let (x, hx, ex) = (now y).0 hy in
                let (v, hv, ev) = (now z).0 hz in
                let one : same x v ≡ true =
                  ground (
                    arith,
                    Bool-cases (p x),
                    Bool-cases (p v),
                    left x v,
                    right x v,
                    left x (f v),
                  ) in
                let e = u.at x v hx hv one in ex ∙ ap (λ i. if p i then f i else i) e ∙ sym ev;
          };
          kept = λ u x has. (
            if p x then f x else x,
            (now (if p x then f x else x)).1 (x, has, refl),
            either (p x) x (over x),
          );
        }
  ]
    where
      either : (b : Bool) (x : Row) → C x (f x) → C x (if b then f x else x)
      either true x h = h
      either false x h = o.reflexive x
