-- ===== src/Identity/Users/Emails.antt =====
-- services/identity-service/src/modules/users/users.service.ts: no two users have one email.
use saas_chassis.Prelude.{
  ℕ, ◌≡◌, refl, ap, sym, ◌∙◌, inl, inr, String, Bool, false, none, some, List, [], ◌∷◌, arith, ◌==◌,
  eq_iff, Result-cases, if◌then◌else◌,
}
use saas_chassis.External.Repository.{IsTable}
use saas_chassis.External.Repository.Lookup.{IsUnique}
use saas_chassis.Identity.Entities.{User}
use saas_chassis.Identity.State.{Env, World}
use saas_chassis.Identity.Users.{
  CreateUserDto, UpdateUserDto, same_user, has_id, has_email, new_user, updated, create, update,
  soft_delete, update_last_login,
}

abbrev pub same_email : User → User → Bool
same_email x y = x.email == y.email

-- The calls of the service that write.
pub data Command : Type 0 where
  creation : CreateUserDto → Command
  change : (id : String) → UpdateUserDto → Command
  removal : (id : String) → Command
  stamp : (now : ℕ) → (id : String) → Command

module _ (env : Env) where
  -- The state after a call, whether it returned or threw.
  abbrev pub perform : Command → World env → World env
  perform (creation dto) w = (create env dto w).1
  perform (change id dto) w = (update env id dto w).1
  perform (removal id) w = (soft_delete env id w).1
  perform (stamp now id) w = (update_last_login env now id w).1

  abbrev pub perform_all : List Command → World env → World env
  perform_all [] w = w
  perform_all (c ∷ cs) w = perform_all cs (perform c w)

  abbrev pub HasUniqueEmails : World env → Type 0
  HasUniqueEmails w = IsUnique same_email env.users w.users

module _ (env : Env) (t : IsTable same_user env.users) where
  -- A save of a user whose email no other user has.
  save-IsUnique :
      (x : User) (s : env.users.Store)
      → ((y : User) → env.users.Has s y → same_user x y ≡ false → x.email ≡ y.email → ⊥)
      → IsUnique same_email env.users s
      → IsUnique same_email env.users (env.users.save x s).1
  save-IsUnique x s own u = elim (Result-cases (env.users.save x s).0) [
    | inr (e, q) ↦ record {
      at = λ y z hy hz k. u.at y z ((t.save_err x s e y q).0 hy) ((t.save_err x s e z q).0 hz) k;
    }
    | inl (_, q) ↦
        let has = λ (y : User).
          t.save_has x s (env.users.save x s).1 y (ap (λ o. (o, (env.users.save x s).1)) q) in
        record {
          at = λ y z hy hz k.
              let same = (eq_iff y.email z.email).0 k in
              elim ((has y).0 hy) [
                | inl ey ↦ elim ((has z).0 hz) [
                  | inl ez ↦ ey ∙ sym ez
                  | inr (old, other) ↦
                      absurd (own z old other (ap (λ (v : User). v.email) (sym ey) ∙ same))
                ]
                | inr (old_y, other_y) ↦ elim ((has z).0 hz) [
                  | inl ez ↦
                      absurd (own y old_y other_y (ap (λ (v : User). v.email) (sym ez) ∙ sym same))
                  | inr (old_z, _) ↦ u.at y z old_y old_z k
                ]
              ];
        }
  ]

  -- A save of a stored user with changes that keep the id and the email.
  save_changed-IsUnique :
      (x x' : User) (s : env.users.Store)
      → env.users.Has s x
      → x'.id ≡ x.id
      → x'.email ≡ x.email
      → IsUnique same_email env.users s
      → IsUnique same_email env.users (env.users.save x' s).1
  save_changed-IsUnique x x' s has id email u =
      save-IsUnique x' s
        (λ y old other same.
          let e = u.at x y has old ((eq_iff x.email y.email).1 (sym email ∙ same)) in
          let key = (eq_iff x'.id y.id).1 (id ∙ ap (λ (v : User). v.id) e) in cc)
        u

  update-IsUnique :
      (p : User → Bool) (f : User → User) (s : env.users.Store)
      → ((x : User) → (f x).email ≡ x.email)
      → IsUnique same_email env.users s
      → IsUnique same_email env.users (env.users.update p f s).1
  update-IsUnique p f s kept u = elim (Result-cases (env.users.update p f s).0) [
    | inr (e, q) ↦ record {
      at = λ y z hy hz k.
          u.at y z ((t.update_err p f s e y q).0 hy) ((t.update_err p f s e z q).0 hz) k;
    }
    | inl (_, q) ↦
        let has = λ (y : User).
          t.update_has p f s (env.users.update p f s).1 y
            (ap (λ o. (o, (env.users.update p f s).1)) q) in
        record {
          at = λ y z hy hz k.
              let (a, old_a, ea) = (has y).0 hy in
              let (b, old_b, eb) = (has z).0 hz in
              let one = ap (λ (v : User). v.email) ea ∙ email_of p f kept a in
              let other = ap (λ (v : User). v.email) eb ∙ email_of p f kept b in
              let same = sym one ∙ (eq_iff y.email z.email).0 k ∙ other in
              let e = u.at a b old_a old_b ((eq_iff a.email b.email).1 same) in
              ea ∙ ap (λ (v : User). if p v then f v else v) e ∙ sym eb;
        }
  ]
    where
      email_of :
          (p : User → Bool) (f : User → User)
          → ((x : User) → (f x).email ≡ x.email)
          → (x : User) → (if p x then f x else x).email ≡ x.email
      email_of p f kept x = ground (arith, kept x)

  perform-HasUniqueEmails :
      (c : Command) (w : World env) → HasUniqueEmails env w → HasUniqueEmails env (perform env c w)
  unfolding create update soft_delete update_last_login
  perform-HasUniqueEmails (creation dto) w u =
      elim (Result-cases (env.users.find_one (has_email env dto.email) w.users)) [
        | inr (e, q) ↦ rw q u
        | inl (some x, q) ↦ rw q u
        | inl (none, q) ↦
            let x = new_user env dto (env.users.new_id w.users) in
            let saved =
              save-IsUnique x w.users
                (λ y old other same.
                  let e = t.find_one_none (has_email env dto.email) w.users y q old in
                  cc ((eq_iff y.email (env.to_lower_case dto.email)).1 (sym same)))
                u in
            elim (Result-cases (env.users.save x w.users).0) [
              | inr (e, k) ↦ rw (q, k) saved
              | inl (_, k) ↦ rw (q, k) saved
            ]
      ]
  perform-HasUniqueEmails (change id dto) w u =
      elim (Result-cases (env.users.find_one (has_id id) w.users)) [
        | inr (e, q) ↦ rw q u
        | inl (none, q) ↦ rw q u
        | inl (some x, q) ↦
            let (has, _) = t.find_one_some (has_id id) w.users x q in
            let saved = save_changed-IsUnique x (updated dto x) w.users has refl refl u in
            elim (Result-cases (env.users.save (updated dto x) w.users).0) [
              | inr (e, k) ↦ rw (q, k) saved
              | inl (_, k) ↦ rw (q, k) saved
            ]
      ]
  perform-HasUniqueEmails (removal id) w u =
      elim (Result-cases (env.users.find_one (has_id id) w.users)) [
        | inr (e, q) ↦ rw q u
        | inl (none, q) ↦ rw q u
        | inl (some x, q) ↦
            let (has, _) = t.find_one_some (has_id id) w.users x q in
            rw q (save_changed-IsUnique x (record x { is_active = false }) w.users has refl refl u)
      ]
  perform-HasUniqueEmails (stamp now id) w u =
      update-IsUnique (has_id id) (λ x. record x { last_login_at = some now }) w.users (λ x. refl) u

  -- Any sequence of creations, changes, removals and stamps of a login keeps the emails of the users
  -- unique, whether its calls return or throw.
  pub perform_all-HasUniqueEmails :
      (cs : List Command) (w : World env)
      → HasUniqueEmails env w
      → HasUniqueEmails env (perform_all env cs w)
  perform_all-HasUniqueEmails [] w u = u
  perform_all-HasUniqueEmails (c ∷ cs) w u =
      perform_all-HasUniqueEmails cs (perform env c w) (perform-HasUniqueEmails c w u)
