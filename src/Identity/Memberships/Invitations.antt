-- ===== src/Identity/Memberships/Invitations.antt =====
-- services/identity-service/src/modules/memberships/memberships.service.ts: a removal is a soft
-- delete.
use saas_chassis.Prelude.{
  ℕ, ◌≡◌, refl, ap, ◌∙◌, inl, inr, String, true, none, some, List, [], ◌∷◌, ok, arith, ◌==◌, eq_iff,
  eq_refl, Result-cases, Bool-cases, Option-cases,
}
use saas_chassis.External.Repository.{IsTable}
use saas_chassis.External.Repository.Lookup.{IsUnique, save-IsUnique}
use saas_chassis.Identity.Entities.{Membership, MembershipStatus}
use saas_chassis.Identity.State.{Env, World}
use saas_chassis.Identity.Roles
use saas_chassis.Identity.Memberships.{
  CreateMembershipDto, of_user_and_tenant, save_over, restored, new_membership, create, remove,
  is_removed,
}
use saas_chassis.Identity.Memberships.Removal.{same_membership, same_membership-of_user_and_tenant}

pub data Command : Type 0 where
  creation : (now : ℕ) → CreateMembershipDto → Command
  removal : (user_id tenant_id : String) → Command

same_membership_sym : (x y : Membership) → same_membership x y ≡ true → same_membership y x ≡ true
same_membership_sym x y h = ground (
  arith,
  eq_iff x.user_id y.user_id,
  eq_iff y.user_id x.user_id,
  eq_iff x.tenant_id y.tenant_id,
  eq_iff y.tenant_id x.tenant_id,
)

same_membership_trans :
    (x y z : Membership)
    → same_membership x y ≡ true
    → same_membership y z ≡ true
    → same_membership x z ≡ true
same_membership_trans x y z h k = ground (
  arith,
  eq_iff x.user_id y.user_id,
  eq_iff y.user_id z.user_id,
  eq_iff x.user_id z.user_id,
  eq_iff x.tenant_id y.tenant_id,
  eq_iff y.tenant_id z.tenant_id,
  eq_iff x.tenant_id z.tenant_id,
)

-- The row `y` is of the user and the tenant of `x` and has its invitation.
pub record Continues (x y : Membership) : Type 0 where
  pub key : same_membership x y ≡ true
  pub invited_by : y.invited_by ≡ x.invited_by
  pub invited_at : y.invited_at ≡ x.invited_at

Continues-refl : (x : Membership) → Continues x x
Continues-refl x = record {
  key = rw (eq_refl x.user_id, eq_refl x.tenant_id) refl;
  invited_by = refl;
  invited_at = refl;
}

Continues-trans : (x y z : Membership) → Continues x y → Continues y z → Continues x z
Continues-trans x y z h k = record {
  key = same_membership_trans x y z h.key k.key;
  invited_by = k.invited_by ∙ h.invited_by;
  invited_at = k.invited_at ∙ h.invited_at;
}

module _ (env : Env) where
  pub record AllContinue (s s' : env.memberships.Store) : Type 0 where
    pub unique : IsUnique same_membership env.memberships s'
    pub kept :
        (x : Membership)
        → env.memberships.Has s x
        → (y : Membership) × env.memberships.Has s' y × Continues x y

  abbrev pub perform : Command → World env → World env
  perform (creation now dto) w = (create env now dto w).1
  perform (removal user_id tenant_id) w = (remove env user_id tenant_id w).1

  abbrev pub perform_all : List Command → World env → World env
  perform_all [] w = w
  perform_all (c ∷ cs) w = perform_all cs (perform c w)

module _ (env : Env) (t : IsTable same_membership env.memberships) where
  unchanged :
      (s s' : env.memberships.Store)
      → s' ≡ s
      → IsUnique same_membership env.memberships s
      → AllContinue env s s'
  unchanged s s' e u = rw e (record { unique = u; kept = λ x has. (x, has, Continues-refl x) })

  -- A row is saved that continues each row with its key.
  saved :
      (m : Membership) (s s' : env.memberships.Store)
      → s' ≡ (env.memberships.save m s).1
      → IsUnique same_membership env.memberships s
      → ((x : Membership) → env.memberships.Has s x → same_membership m x ≡ true → Continues x m)
      → AllContinue env s s'
  saved m s s' e u over = elim (Result-cases (env.memberships.save m s).0) [
    | inr (x, q) ↦
        let old = λ (y : Membership). t.save_err m s x y q in
        rw e (record {
          unique = record { at = λ y z hy hz k. u.at y z ((old y).0 hy) ((old z).0 hz) k };
          kept = λ y has. (y, (old y).1 has, Continues-refl y);
        })
    | inl (_, q) ↦
        let k = ap (λ r. (r, (env.memberships.save m s).1)) q in
        let now = λ (y : Membership). t.save_has m s (env.memberships.save m s).1 y k in
        rw e (record {
          unique = save-IsUnique t m s (env.memberships.save m s).1 same_membership_sym k u;
          kept = λ x has. elim (Bool-cases (same_membership m x)) [
            | inl own ↦ (m, (now m).1 (inl refl), over x has own)
            | inr other ↦ (x, (now x).1 (inr (has, other)), Continues-refl x)
          ];
        })
  ]

  -- The found row with a new role, status and date continues each row with its key.
  over_found :
      (user_id tenant_id : String) (old m : Membership) (s : env.memberships.Store)
      → env.memberships.find_one (of_user_and_tenant user_id tenant_id) s ≡ ok (some old)
      → Continues old m
      → IsUnique same_membership env.memberships s
      → (x : Membership) → env.memberships.Has s x
      → same_membership m x ≡ true
      → Continues x m
  over_found user_id tenant_id old m s q c u x has own =
      let (there, _) = t.find_one_some (of_user_and_tenant user_id tenant_id) s old q in
      let e = u.at old x there has (same_membership_trans old m x c.key own) in rw (← e) c

  over_none :
      (user_id tenant_id : String) (m : Membership) (s : env.memberships.Store)
      → env.memberships.find_one (of_user_and_tenant user_id tenant_id) s ≡ ok none
      → of_user_and_tenant user_id tenant_id m ≡ true
      → (x : Membership) → env.memberships.Has s x
      → same_membership m x ≡ true
      → Continues x m
  over_none user_id tenant_id m s q key x has own =
      let absent = t.find_one_none (of_user_and_tenant user_id tenant_id) s x q has in
      let e = same_membership-of_user_and_tenant user_id tenant_id m x key in cc

  remove-AllContinue :
      (user_id tenant_id : String) (w : World env)
      → IsUnique same_membership env.memberships w.memberships
      → AllContinue env w.memberships (remove env user_id tenant_id w).1.memberships
  unfolding remove
  remove-AllContinue user_id tenant_id w u =
      let p = of_user_and_tenant user_id tenant_id in
      let s = w.memberships in
      let s' = (remove env user_id tenant_id w).1.memberships in
      elim (Result-cases (env.memberships.find_one p s)) [
        | inr (e, q) ↦ unchanged s s' (ground arith) u
        | inl (none, q) ↦ unchanged s s' (ground arith) u
        | inl (some old, q) ↦
            let gone : Membership = record old { status = MembershipStatus.removed } in
            let c : Continues old gone = record {
              key = (Continues-refl old).key;
              invited_by = refl;
              invited_at = refl;
            } in
            saved gone s s' (ground arith) u (over_found user_id tenant_id old gone s q c u)
      ]

  create-AllContinue :
      (now : ℕ) (dto : CreateMembershipDto) (w : World env)
      → IsUnique same_membership env.memberships w.memberships
      → AllContinue env w.memberships (create env now dto w).1.memberships
  unfolding create save_over Roles.find_by_id
  create-AllContinue now dto w u =
      let p = of_user_and_tenant dto.user_id dto.tenant_id in
      let s = w.memberships in
      let s' = (create env now dto w).1.memberships in
      elim (Result-cases (env.memberships.find_one p s)) [
        | inr (e, q) ↦ unchanged s s' (ground arith) u
        | inl (found, q) ↦
            elim (Result-cases (env.roles.find_one (λ r. r.id == dto.role_id) w.roles)) [
              | inr (e, f) ↦ unchanged s s' (ground arith) u
              | inl (none, f) ↦ unchanged s s' (ground arith) u
              | inl (some role, f) ↦ elim (Option-cases found) [
                | inl absent ↦
                    let m = new_membership now dto in
                    saved m s s' (ground arith) u (
                      over_none dto.user_id dto.tenant_id m s (q ∙ ap ok absent)
                        (rw (eq_refl dto.user_id, eq_refl dto.tenant_id) refl))
                | inr (old, there) ↦ elim (Bool-cases (is_removed old)) [
                  | inr active ↦ unchanged s s' (ground arith) u
                  | inl gone ↦
                      let m = restored now dto old in
                      let c : Continues old m = record {
                        key = (Continues-refl old).key;
                        invited_by = refl;
                        invited_at = refl;
                      } in
                      saved m s s' (ground arith) u
                        (over_found dto.user_id dto.tenant_id old m s (q ∙ ap ok there) c u)
                ]
              ]
            ]
      ]

  perform-AllContinue :
      (c : Command) (w : World env)
      → IsUnique same_membership env.memberships w.memberships
      → AllContinue env w.memberships (perform env c w).memberships
  perform-AllContinue (creation now dto) = create-AllContinue now dto
  perform-AllContinue (removal user_id tenant_id) = remove-AllContinue user_id tenant_id

  -- Creations and removals in any order, whether they return or throw, keep the memberships unique
  -- for a user and a tenant where they were, and lose none: each row has one of the same user,
  -- tenant and invitation afterwards.
  pub perform_all-AllContinue :
      (cs : List Command) (w : World env)
      → IsUnique same_membership env.memberships w.memberships
      → AllContinue env w.memberships (perform_all env cs w).memberships
  perform_all-AllContinue [] w u = unchanged w.memberships w.memberships refl u
  perform_all-AllContinue (c ∷ cs) w u =
      let first = perform-AllContinue c w u in
      let rest = perform_all-AllContinue cs (perform env c w) first.unique in
      record {
        unique = rest.unique;
        kept = λ x has.
            let (y, here, h) = first.kept x has in
            let (z, there, k) = rest.kept y here in (z, there, Continues-trans x y z h k);
      }
