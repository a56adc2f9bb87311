-- ===== src/Users/Revoked.antt =====
-- The UPDATEs of `_apply_role_assignments_diff`
-- (src/admin_backend/repositories/tenant_users.py).
use cortex_cm.Base.{
  ◌≡◌, refl, ◌∙◌, Bool, false, not, ◌&&◌, List, [], ◌∷◌, arith, any, select, update_where, ◌==◌, In,
  here, there,
}
use cortex_cm.Models.Columns.{Uuid}
use cortex_cm.Models.TenantUsers.{ActorUserType}
use cortex_cm.Models.Assignments.{TenantUserRoleAssignment}
use cortex_cm.Database.Tables.{Db}
use cortex_cm.Database.Session.{Session}
use cortex_cm.Users.Pairs.{RoleAssignmentTuple, is_same, contains}
use cortex_cm.Users.Diff.{pair_of, set_revoked, is_current, is_grant_of, revoke_each}

-- The rows of the other users.
abbrev pub others : Uuid → List TenantUserRoleAssignment → List TenantUserRoleAssignment
others user_id rows = select (λ g. not (g.tenant_user_id == user_id)) rows

abbrev pub holds : Session → Uuid → RoleAssignmentTuple → List TenantUserRoleAssignment → Bool
holds s user_id a rows = any (is_grant_of s user_id a) rows

In-unmet {ℓ} :
    {A : Type ℓ} (p : A → Bool) (f : A → A) {x : A} {xs : List A}
    → In x xs
    → p x ≡ false
    → In x (update_where p f xs)
In-unmet p f here e = rw e here
In-unmet p f (there i) e = there (In-unmet p f i e)

module _ (s : Session) (user_id actor : Uuid) (actor_type : ActorUserType) (db : Db) where
  abbrev pub revoke_one :
      RoleAssignmentTuple → List TenantUserRoleAssignment → List TenantUserRoleAssignment
  revoke_one b rows = update_where (is_grant_of s user_id b) (set_revoked actor actor_type db) rows

  holds-revoke_one :
      (a b : RoleAssignmentTuple) (rows : List TenantUserRoleAssignment)
      → holds s user_id a (revoke_one b rows) ≡ (holds s user_id a rows && not (is_same a b))
  holds-revoke_one a b [] = refl
  holds-revoke_one a b (g ∷ rows) = ground (arith, holds-revoke_one a b rows)

  others-revoke_one :
      (b : RoleAssignmentTuple) (rows : List TenantUserRoleAssignment)
      → others user_id (revoke_one b rows) ≡ others user_id rows
  others-revoke_one b [] = refl
  others-revoke_one b (g ∷ rows) = ground (arith, others-revoke_one b rows)

  pub holds-revoke_each :
      (a : RoleAssignmentTuple) (pairs : List RoleAssignmentTuple)
      (rows : List TenantUserRoleAssignment)
      → holds s user_id a (revoke_each s user_id actor actor_type pairs db rows)
        ≡ (holds s user_id a rows && not (contains pairs a))
  unfolding revoke_each
  holds-revoke_each a [] rows = ground arith
  holds-revoke_each a (b ∷ pairs) rows =
      holds-revoke_each a pairs (revoke_one b rows) ∙ ground (arith, holds-revoke_one a b rows)

  pub others-revoke_each :
      (pairs : List RoleAssignmentTuple) (rows : List TenantUserRoleAssignment)
      → others user_id (revoke_each s user_id actor actor_type pairs db rows) ≡ others user_id rows
  unfolding revoke_each
  others-revoke_each [] rows = refl
  others-revoke_each (b ∷ pairs) rows =
      others-revoke_each pairs (revoke_one b rows) ∙ others-revoke_one b rows

  pub revoke_each-In :
      (pairs : List RoleAssignmentTuple) (rows : List TenantUserRoleAssignment)
      {g : TenantUserRoleAssignment}
      → In g rows
      → (is_current s user_id g && contains pairs (pair_of g)) ≡ false
      → In g (revoke_each s user_id actor actor_type pairs db rows)
  unfolding revoke_each
  revoke_each-In [] rows at e = at
  revoke_each-In (b ∷ pairs) rows {g} at e =
      revoke_each-In pairs (revoke_one b rows)
        (In-unmet (is_grant_of s user_id b) (set_revoked actor actor_type db) at (ground arith))
        (ground arith)
