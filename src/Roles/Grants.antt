-- ===== src/Roles/Grants.antt =====
-- The permissions of a role after `RolesRepo.update` of src/admin_backend/repositories/roles.py.
use cortex_cm.Base.{
  ◌≡◌, refl, sym, ap, ◌∙◌, inl, inr, Bool, true, false, not, ◌&&◌, Option, none, some, List, [],
  ◌∷◌, ◌++◌, map, Text, arith, any, select, any-append, any-map, any-select, Bool-cases, ◌==◌,
  ==_refl, In, select-In, In-append_right, find_sound,
}
use mathlib.Core.Path.{subst}
use cortex_cm.Result.{ok}
use cortex_cm.Models.Columns.{Uuid}
use cortex_cm.Models.TenantUsers.{ActorUserType}
use cortex_cm.Models.Permissions.{Permission}
use cortex_cm.Models.Roles.{Role, RolePermission}
use cortex_cm.Auth.Context.{AuthContext}
use cortex_cm.Database.Tables.{Db}
use cortex_cm.Database.Session.{Session}
use cortex_cm.Roles.Sets.{elem, minus, elem-minus}
use cortex_cm.Roles.Detail.{RoleDetail, is_role}
use cortex_cm.Roles.Update.{
  RoleUpdateRequest, Diff, diff_of, new_ids, grants_of, is_removed, new_grant, write, update,
}
use cortex_cm.Roles.Editing.{Processed, update-eq-ok}

abbrev is_grant : Uuid → Uuid → RolePermission → Bool
is_grant role_id i rp = rp.role_id == role_id && rp.permission_id == i

-- The rows of the other roles.
abbrev pub others : Uuid → List RolePermission → List RolePermission
others role_id rows = select (λ rp. not (rp.role_id == role_id)) rows

any_grant :
    (role_id i : Uuid) (db : Db)
    → elem i (grants_of role_id db) ≡ any (is_grant role_id i) db.role_permissions
any_grant role_id i db =
    let of_role = λ (rp : RolePermission). rp.role_id == role_id in
    any-map (λ j. j == i) (λ (rp : RolePermission). rp.permission_id)
      (select of_role db.role_permissions)
    ∙ any-select of_role (λ rp. rp.permission_id == i) db.role_permissions

elem_same : (j i : Uuid) (ids : List Uuid) → j == i ≡ true → elem j ids ≡ elem i ids
elem_same j i ids e = let same : j ≡ i = ground arith in ap (λ k. elem k ids) same

module _ (role_id actor : Uuid) (actor_type : ActorUserType) (db : Db) where
  any_added :
      (i : Uuid) (added : List Uuid)
      → any (is_grant role_id i) (map (new_grant role_id actor actor_type db) added) ≡ elem i added
  any_added i [] = refl
  any_added i (j ∷ js) = rw (==_refl role_id, any_added i js) refl

  any_kept :
      (i : Uuid) (removed : List Uuid) (rows : List RolePermission)
      → any (is_grant role_id i) (select (λ rp. not (is_removed role_id removed rp)) rows)
        ≡ (any (is_grant role_id i) rows && not (elem i removed))
  any_kept i removed [] = refl
  any_kept i removed (rp ∷ rows) =
      ground (arith, any_kept i removed rows, elem_same rp.permission_id i removed)

  others_added :
      (added : List Uuid) (rest : List RolePermission)
      → others role_id (map (new_grant role_id actor actor_type db) added ++ rest)
        ≡ others role_id rest
  others_added [] rest = refl
  others_added (j ∷ js) rest = rw (==_refl role_id) (others_added js rest)

  others_kept :
      (removed : List Uuid) (rows : List RolePermission)
      → others role_id (select (λ rp. not (is_removed role_id removed rp)) rows)
        ≡ others role_id rows
  others_kept removed [] = refl
  others_kept removed (rp ∷ rows) = elim (Bool-cases (rp.role_id == role_id)) [
    | inl e ↦ elim (Bool-cases (elem rp.permission_id removed)) [
      | inl f ↦ rw e (rw f (others_kept removed rows))
      | inr f ↦ rw e (rw f (rw e (others_kept removed rows)))
    ]
    | inr e ↦ rw e (rw e (ap (λ xs. rp ∷ xs) (others_kept removed rows)))
  ]

-- The rows behind a replacement of the permissions of a role.
pub record IsReplaced (role_id : Uuid) (new : List Uuid) (db db' : Db) : Type 0 where
  pub exact : (i : Uuid) → elem i (grants_of role_id db') ≡ elem i new
  pub other_roles : others role_id db'.role_permissions ≡ others role_id db.role_permissions
  pub kept :
      (rp : RolePermission)
      → In rp db.role_permissions
      → rp.role_id ≡ role_id
      → elem rp.permission_id new ≡ true
      → In rp db'.role_permissions

write-IsReplaced :
    (b : RoleUpdateRequest) (actor : Uuid) (actor_type : ActorUserType) (r : Role) (new : List Uuid)
    (db : Db)
    → IsReplaced r.id new db (write b actor actor_type r (diff_of new (grants_of r.id db)) db)
write-IsReplaced b actor actor_type r new db =
    let current = grants_of r.id db in
    let added = minus new current in
    let removed = minus current new in
    let db1 = write b actor actor_type r (diff_of new current) db in
    let fresh = map (new_grant r.id actor actor_type db) added in
    let old = select (λ rp. not (is_removed r.id removed rp)) db.role_permissions in
    record {
      exact = λ i.
          let now = any-append (is_grant r.id i) fresh old in
          let new_part = any_added r.id actor actor_type db i added in
          let old_part = any_kept r.id actor actor_type db i removed db.role_permissions in
          any_grant r.id i db1
          ∙ now
          ∙ ground (
            arith,
            new_part,
            old_part,
            any_grant r.id i db,
            elem-minus i new current,
            elem-minus i current new,
          );
      other_roles =
          others_added r.id actor actor_type db added old
          ∙ others_kept r.id actor actor_type db removed db.role_permissions;
      kept = λ rp at is_r wanted.
          let stays : elem rp.permission_id removed ≡ false =
            elem-minus rp.permission_id current new ∙ ground arith in
          In-append_right fresh
            (select-In (λ rp. not (is_removed r.id removed rp)) at (ground arith));
    }

IsReplaced-along :
    (role_id : Uuid) (new : List Uuid) (db after db' : Db)
    → db'.role_permissions ≡ after.role_permissions
    → IsReplaced role_id new db after
    → IsReplaced role_id new db db'
IsReplaced-along role_id new db after db' same done = record {
  exact = λ i. rw same (done.exact i);
  other_roles = rw same done.other_roles;
  kept = λ rp at is_r wanted. rw same (done.kept rp at is_r wanted);
}

pub sent_diff :
    (s : Session) (b : RoleUpdateRequest) (r : Role) (d : Diff) (db : Db) (raw : Option (List Uuid))
    → b.permission_ids ≡ some raw
    → Processed s b r d db
    → d ≡ diff_of (new_ids raw) (grants_of r.id db)
sent_diff s b r d db raw sent (inl (unsent, _)) = absurd (cc)
sent_diff s b r d db raw sent (inr (raw', sent', e, _)) =
    let same : raw' ≡ raw = ground arith in
    subst (λ (x : Option (List Uuid)). d ≡ diff_of (new_ids x) (grants_of r.id db)) same e

module _ (sort_names : List Text → List Text) (display : Text → Text → Option Text)
    (order_by : List Permission → List Permission) (s : Session) (b : RoleUpdateRequest)
    (actor : Uuid) (actor_type : ActorUserType) (auth : Option AuthContext)
    (rid : Option Uuid) where
  -- An update that returns a role, and whose request has permission ids, has replaced the permissions
  -- of the role by just those ids: the rows of other roles are as they were, and so are the role's own
  -- rows for the permissions that it keeps, with their authors and times.
  pub update-IsReplaced :
      (role_id : Uuid) (raw : Option (List Uuid)) (db : Db) {detail : RoleDetail} {db' : Db}
      → b.permission_ids ≡ some raw
      → update sort_names display order_by s b actor actor_type auth rid role_id db
        ≡ ok (some detail, db')
      → IsReplaced role_id (new_ids raw) db db'
  update-IsReplaced role_id raw db {detail} {db'} sent h =
      elim (update-eq-ok sort_names display order_by s b actor actor_type auth rid role_id db h) [
        | inl (_, is_none, _) ↦ absurd (cc)
        | inr (r, found, _, _, _, edited) ↦
            let is_r : r.id ≡ role_id =
              let h' = find_sound (is_role role_id none) db.roles found in ground arith in
            let is_d = sent_diff s b r edited.diff db raw sent edited.is_processed in
            let after = λ (d : Diff). write b actor actor_type r d db in
            let written =
              subst (λ (d : Diff). IsReplaced r.id (new_ids raw) db (after d)) (sym is_d)
                (write-IsReplaced b actor actor_type r (new_ids raw) db) in
            subst (λ (i : Uuid). IsReplaced i (new_ids raw) db db') is_r
              (IsReplaced-along r.id (new_ids raw) db (after edited.diff) db'
                edited.same_tables.role_permissions written)
      ]
