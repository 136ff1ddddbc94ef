-- ===== src/Identity/Memberships/Removal.antt =====
-- services/identity-service/src/modules/memberships/memberships.service.ts: what becomes of a
-- membership that was removed.
use saas_chassis.Prelude.{
  ℕ, ◌≡◌, ap, ◌∙◌, inl, inr, String, Bool, true, ◌&&◌, none, some, ok, arith, ◌==◌, eq_iff,
  Result-cases, Bool-cases, Option, Option-cases, eq_refl, refl,
}
use saas_chassis.External.Repository.{IsTable}
use saas_chassis.External.Repository.Lookup.{find_one-save_self}
use saas_chassis.Identity.Entities.{Membership, MembershipStatus}
use saas_chassis.Identity.State.{Env, World}
use saas_chassis.Identity.Roles
use saas_chassis.Identity.Memberships.{
  CreateMembershipDto, of_user_and_tenant, save_over, restored, new_membership, create, remove,
  is_removed,
}

-- The unique key of the table memberships.
abbrev pub same_membership : Membership → Membership → Bool
same_membership x y = x.user_id == y.user_id && x.tenant_id == y.tenant_id

pub same_membership-of_user_and_tenant :
    (user_id tenant_id : String) (x y : Membership)
    → of_user_and_tenant user_id tenant_id x ≡ true
    → same_membership x y ≡ of_user_and_tenant user_id tenant_id y
same_membership-of_user_and_tenant user_id tenant_id x y h = ground (
  arith,
  eq_iff x.user_id user_id,
  eq_iff x.tenant_id tenant_id,
  eq_iff x.user_id y.user_id,
  eq_iff y.user_id user_id,
  eq_iff x.tenant_id y.tenant_id,
  eq_iff y.tenant_id tenant_id,
)

module _ (env : Env) where
  remove-found :
      (user_id tenant_id : String) (w w' : World env)
      → remove env user_id tenant_id w ≡ (ok tt, w')
      → (m : Membership) × (env.memberships.find_one
            (of_user_and_tenant user_id tenant_id)
            w.memberships
          ≡ ok (some m))
        × (env.memberships.save (record m { status = MembershipStatus.removed }) w.memberships
            ≡ (ok tt, w'.memberships))
  unfolding remove
  remove-found user_id tenant_id w w' h =
      elim (Result-cases
        (env.memberships.find_one (of_user_and_tenant user_id tenant_id) w.memberships)) [
          | inr (e, q) ↦ ground arith
          | inl (none, q) ↦ ground arith
          | inl (some m, q) ↦ (m, q, ground arith)
        ]

  create-looked :
      (now : ℕ) (dto : CreateMembershipDto) (m : Membership) (w w' : World env)
      → create env now dto w ≡ (ok m, w')
      → (found : Option Membership) × (env.memberships.find_one
            (of_user_and_tenant dto.user_id dto.tenant_id)
            w.memberships
          ≡ ok found)
  unfolding create
  create-looked now dto m w w' h =
      elim (Result-cases
        (env.memberships.find_one (of_user_and_tenant dto.user_id dto.tenant_id) w.memberships)) [
          | inr (e, q) ↦ ground arith
          | inl (found, q) ↦ (found, q)
        ]

  create-made :
      (now : ℕ) (dto : CreateMembershipDto) (found : Membership) (m : Membership) (w w' : World env)
      → env.memberships.find_one (of_user_and_tenant dto.user_id dto.tenant_id) w.memberships
        ≡ ok (some found)
      → create env now dto w ≡ (ok m, w')
      → (is_removed found ≡ true) × (m ≡ restored now dto found)
  unfolding create save_over Roles.find_by_id
  create-made now dto found m w w' q h =
      elim (Result-cases (env.roles.find_one (λ r. r.id == dto.role_id) w.roles)) [
        | inr (e, f) ↦ ground arith
        | inl (none, f) ↦ ground arith
        | inl (some role, f) ↦ elim (Bool-cases (is_removed found)) [
          | inl b ↦ (b, ground arith)
          | inr b ↦ ground arith
        ]
      ]

module _ (env : Env) (t : IsTable same_membership env.memberships) where
  -- A creation that returns has saved the membership that it returns: the given one, active.
  pub create-saved :
      (now : ℕ) (dto : CreateMembershipDto) (w w' : World env) (m : Membership)
      → dto.status ≡ none
      → create env now dto w ≡ (ok m, w')
      → (of_user_and_tenant dto.user_id dto.tenant_id m ≡ true)
        × (m.role_id ≡ dto.role_id)
        × (m.status ≡ MembershipStatus.active)
        × (env.memberships.save m w.memberships ≡ (ok tt, w'.memberships))
  unfolding create save_over Roles.find_by_id
  create-saved now dto w w' m plain h =
      let p = of_user_and_tenant dto.user_id dto.tenant_id in
      elim (Result-cases (env.memberships.find_one p w.memberships)) [
        | inr (e, q) ↦ ground arith
        | inl (found, q) ↦
            elim (Result-cases (env.roles.find_one (λ r. r.id == dto.role_id) w.roles)) [
              | inr (e, f) ↦ ground arith
              | inl (none, f) ↦ ground arith
              | inl (some role, f) ↦ (
                elim (Option-cases found) [
                  | inl absent ↦
                      let e : m ≡ new_membership now dto = ground arith in
                      rw e (rw (eq_refl dto.user_id, eq_refl dto.tenant_id) refl)
                  | inr (x, there) ↦
                      let e : m ≡ restored now dto x = ground arith in
                      rw e (t.find_one_some p w.memberships x (q ∙ ap ok there)).1
                ],
                ground arith,
                ground arith,
                ground arith,
              )
            ]
      ]

  -- A creation that returns over the state that a removal which returned has left, for the same user
  -- and tenant, gives the row that was removed with the role, the status (or active) and the date of
  -- the creation.
  pub create-remove :
      (now : ℕ) (dto : CreateMembershipDto) (m : Membership) (w w' w'' : World env)
      → remove env dto.user_id dto.tenant_id w ≡ (ok tt, w')
      → create env now dto w' ≡ (ok m, w'')
      → (old : Membership) × (env.memberships.find_one
            (of_user_and_tenant dto.user_id dto.tenant_id)
            w.memberships
          ≡ ok (some old))
        × (m ≡ restored now dto old)
  create-remove now dto m w w' w'' removed created =
      let (found, looked) = create-looked env now dto m w' w'' created in
      let (old, q, saved) = remove-found env dto.user_id dto.tenant_id w w' removed in
      let p = of_user_and_tenant dto.user_id dto.tenant_id in
      let (_, key) = t.find_one_some p w.memberships old q in
      let gone : Membership = record old { status = MembershipStatus.removed } in
      let e : found ≡ some gone =
        find_one-save_self t p gone w.memberships w'.memberships found
          (λ y. same_membership-of_user_and_tenant dto.user_id dto.tenant_id gone y key) key saved
          looked in
      let (_, made) = create-made env now dto gone m w' w'' (looked ∙ ap ok e) created in
      (old, q, made)
