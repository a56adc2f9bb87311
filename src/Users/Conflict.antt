-- ===== src/Users/Conflict.antt =====
-- `ROLE_ASSIGNMENT_CONFLICT` of src/admin_backend/repositories/tenant_users.py: an update that runs
-- alone does not end in it.
use cortex_cm.Base.{
  ◌≡◌, refl, sym, ◌∙◌, ap, inl, inr, Bool, true, false, not, ◌&&◌, ◌||◌, List, [], ◌∷◌, arith, any,
  Bool-cases, ◌==◌, ==_iff, In_of_any, any_of_In, and-split, and-join,
}
use mathlib.Core.Path.{subst}
use cortex_cm.Result.{raise}
use cortex_cm.Errors.{Error, client_error, role_assignment_conflict}
use cortex_cm.Models.Columns.{Uuid}
use cortex_cm.Models.TenantUsers.{ActorUserType}
use cortex_cm.Models.Assignments.{TenantUserRoleAssignment}
use cortex_cm.Database.Tables.{Db}
use cortex_cm.Database.Session.{Session, admits}
use cortex_cm.Database.Txn.{throw_if, >>=-ne-raise}
use cortex_cm.Users.Pairs.{
  RoleAssignmentTuple, is_same, is_same_sound, is_same_refl, contains, set_of, difference,
  contains-set_of, contains-difference,
}
use cortex_cm.Users.Validate.{is_tenant_role}
use cortex_cm.Users.Diff.{
  pair_of, is_duplicate, is_anchored, is_grant_of, select_current, revoke_each, insert_one,
  insert_each, apply_role_assignments_diff,
}
use cortex_cm.Users.Revoked.{holds, holds-revoke_each}
use cortex_cm.Users.Inserted.{insert_one-eq-ok}
use cortex_cm.Users.Reconciled.{any_current}
use cortex_cm.Users.Tenancy.{IsOfTenant, revoke_each-IsOfTenant}

abbrev pub conflict : Error
conflict = client_error role_assignment_conflict

abbrev Distinct : List RoleAssignmentTuple → Type 0
Distinct [] = Unit
Distinct (a ∷ pairs) = (contains pairs a ≡ false) × Distinct pairs

set_of-Distinct : (pairs : List RoleAssignmentTuple) → Distinct (set_of pairs)
set_of-Distinct [] = tt
set_of-Distinct (a ∷ pairs) = elim (Bool-cases (contains pairs a)) [
  | inl old ↦ rw old (set_of-Distinct pairs)
  | inr new ↦ rw new (contains-set_of pairs a ∙ new, set_of-Distinct pairs)
]

difference-Distinct : (xs ys : List RoleAssignmentTuple) → Distinct xs → Distinct (difference xs ys)
difference-Distinct [] ys d = tt
difference-Distinct (a ∷ xs) ys d = elim (Bool-cases (contains ys a)) [
  | inl old ↦ rw old (difference-Distinct xs ys d.1)
  | inr new ↦ rw new (
    contains-difference xs ys a ∙ ap (λ b. b && not (contains ys a)) d.0,
    difference-Distinct xs ys d.1,
  )
]

pub throw_if-ne-raise :
    (b : Bool) (e x : Error) (db : Db) → ¬ (e ≡ x) → ¬ (throw_if b e db ≡ raise x)
throw_if-ne-raise true e x db other h = other (ground arith)
throw_if-ne-raise false e x db other h = cc

module _ (s : Session) (t user_id actor : Uuid) (actor_type : ActorUserType) where
  insert_one-ne-conflict :
      (a : RoleAssignmentTuple) (db : Db)
      → any (is_duplicate user_id a) db.tenant_user_role_assignments ≡ false
      → ¬ (insert_one s t user_id actor actor_type a db ≡ raise conflict)
  insert_one-ne-conflict a db free h =
      elim (Bool-cases (not (admits s t) || not (is_tenant_role db a.role_id))) [
        | inl e ↦ let h1 = rw e at h in cc
        | inr e ↦
            let h1 = rw (e, free) at h in
            elim (Bool-cases (is_anchored t user_id a db)) [
              | inl q ↦ let h2 = rw q at h1 in cc
              | inr q ↦ let h2 = rw q at h1 in cc
            ]
      ]

  -- Pairs of which none is there, and none twice, are inserted without a conflict.
  insert_each-ne-conflict :
      (pairs : List RoleAssignmentTuple) (db : Db)
      → Distinct pairs
      → ((a : RoleAssignmentTuple)
          → contains pairs a ≡ true
          → any (is_duplicate user_id a) db.tenant_user_role_assignments ≡ false)
      → ¬ (insert_each s t user_id actor actor_type pairs db ≡ raise conflict)
  unfolding insert_each
  insert_each-ne-conflict [] db d free h = cc
  insert_each-ne-conflict (b ∷ pairs) db d free h =
      >>=-ne-raise (insert_one s t user_id actor actor_type b)
        (λ _. insert_each s t user_id actor actor_type pairs) db conflict
        (insert_one-ne-conflict b db (free b (rw (is_same_refl b) refl)))
        (λ _ between done.
          let (_, is_next) = insert_one-eq-ok s t user_id actor actor_type b db done in
          insert_each-ne-conflict pairs between d.1 (
            subst
              (λ (x : Db).
                (a : RoleAssignmentTuple)
                → contains pairs a ≡ true
                → any (is_duplicate user_id a) x.tenant_user_role_assignments ≡ false)
              (sym is_next)
              (λ a wanted.
                let other = not_b a wanted d.0 in let old = free a (ground arith) in ground arith)))
        h
    where
      not_b :
          (a : RoleAssignmentTuple)
          → contains pairs a ≡ true
          → contains pairs b ≡ false
          → is_same b a ≡ false
      not_b a wanted absent = elim (Bool-cases (is_same b a)) [
        | inl e ↦
            let same : b ≡ a = is_same_sound b a e in absurd (clash (rw same at absent) wanted)
        | inr e ↦ e
      ]
        where
          clash : contains pairs a ≡ false → contains pairs a ≡ true → ⊥
          clash p q = cc

  -- A duplicate of a visible user's pair is a row that the session sees.
  no_duplicate :
      (a : RoleAssignmentTuple) (rows : List TenantUserRoleAssignment)
      → admits s t ≡ true
      → IsOfTenant s t user_id actor actor_type rows
      → holds s user_id a rows ≡ false
      → any (is_duplicate user_id a) rows ≡ false
  no_duplicate a rows seen own absent = elim (Bool-cases (any (is_duplicate user_id a) rows)) [
    | inr e ↦ e
    | inl e ↦
        let (g, at, met) = In_of_any (is_duplicate user_id a) rows e in
        let (is_user, rest) = and-split (g.tenant_user_id == user_id) _ met in
        let (same, active) = and-split (is_same (pair_of g) a) _ rest in
        let of_t : g.tenant_id ≡ t = own g at ((==_iff g.tenant_user_id user_id).0 is_user) in
        let sees : admits s g.tenant_id ≡ true = rw of_t seen in
        let held =
          any_of_In (is_grant_of s user_id a) at
            (and-join (and-join sees (and-join is_user active)) same) in
        absurd (clash absent held)
  ]
    where
      clash : holds s user_id a rows ≡ false → holds s user_id a rows ≡ true → ⊥
      clash p q = cc

  pub apply_role_assignments_diff-ne-conflict :
      (pairs : List RoleAssignmentTuple) (db : Db)
      → admits s t ≡ true
      → IsOfTenant s t user_id actor actor_type db.tenant_user_role_assignments
      → ¬ (
          apply_role_assignments_diff s t user_id actor actor_type
            (select_current s user_id db)
            (set_of pairs)
            db
          ≡ raise conflict)
  apply_role_assignments_diff-ne-conflict pairs db seen own h =
      let current = select_current s user_id db in
      let desired = set_of pairs in
      let gone = difference current desired in
      let rows = revoke_each s user_id actor actor_type gone db db.tenant_user_role_assignments in
      let db1 : Db = record db { tenant_user_role_assignments = rows } in
      insert_each-ne-conflict (difference desired current) db1
        (difference-Distinct desired current (set_of-Distinct pairs))
        (λ a wanted.
          no_duplicate a rows seen
            (revoke_each-IsOfTenant s t user_id actor actor_type gone db
              db.tenant_user_role_assignments own)
            (holds-revoke_each s user_id actor actor_type db a gone db.tenant_user_role_assignments
              ∙ ground (
                arith,
                contains-difference desired current a,
                any_current s t user_id actor actor_type a db,
              )))
        h
