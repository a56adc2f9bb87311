-- ===== src/Roles/Counting.antt =====
-- When `_count_override_global_active_holders` of src/admin_backend/repositories/roles.py counts a
-- holder.
use cortex_cm.Base.{
  ◌≡◌, refl, sym, ◌∙◌, inl, inr, true, false, ◌&&◌, Option, List, map, select, arith, ◌==◌, ==_refl,
  In, any_of_In, In_of_any, any-map, any-select, In-append, In-append_left, In-append_right, In-map,
  map-In, In-select, select-In,
}
use cortex_cm.Models.Columns.{Uuid}
use cortex_cm.Models.Roles.{RolePermission}
use cortex_cm.Models.Assignments.{PlatformUserRoleAssignment, TenantUserRoleAssignment}
use cortex_cm.Database.Tables.{Db}
use cortex_cm.Database.Session.{Session}
use cortex_cm.Roles.Sets.{elem, length-distinct, distinct-some}
use cortex_cm.Roles.Holders.{
  grants_override, override_role_ids, is_platform_holder, is_tenant_holder, holders_through,
  count_override_global_active_holders,
}
use cortex_cm.Audit.Keeps.{SameTables}

-- A role that has the permission has it by a row.
pub In-override_role_ids :
    (db : Db) (exclude : Option Uuid) (role_id : Uuid)
    → elem role_id (override_role_ids db exclude) ≡ true
    → (rp : RolePermission) × In rp db.role_permissions
      × (grants_override db exclude rp ≡ true)
      × (rp.role_id ≡ role_id)
In-override_role_ids db exclude role_id h =
    let rows = db.role_permissions in
    let through = λ (rp : RolePermission). rp.role_id == role_id in
    let (rp, at, e) =
      In_of_any (λ rp. grants_override db exclude rp && through rp) rows
        (sym (any-select (grants_override db exclude) through rows)
          ∙ sym (
              any-map (λ j. j == role_id) (λ (rp : RolePermission). rp.role_id)
                (select (grants_override db exclude) rows))
          ∙ h) in
    (rp, at, ground arith, ground arith)

pub override_role_ids-In :
    (db : Db) (exclude : Option Uuid) (rp : RolePermission)
    → In rp db.role_permissions
    → grants_override db exclude rp ≡ true
    → elem rp.role_id (override_role_ids db exclude) ≡ true
override_role_ids-In db exclude rp at e =
    any_of_In (λ j. j == rp.role_id)
      (map-In (λ (x : RolePermission). x.role_id) (select-In (grants_override db exclude) at e))
      (==_refl rp.role_id)

module _ (s : Session) where
  -- More roles have no fewer holders.
  holders_through_mono :
      (db : Db) (ids ids' : List Uuid) {i : Uuid}
      → ((r : Uuid) → elem r ids ≡ true → elem r ids' ≡ true)
      → In i (holders_through s db ids)
      → In i (holders_through s db ids')
  holders_through_mono db ids ids' {i} more h =
      let user = λ (g : PlatformUserRoleAssignment). g.platform_user_id in
      let user' = λ (g : TenantUserRoleAssignment). g.tenant_user_id in
      let left = λ (rs : List Uuid).
        map user (select (is_platform_holder s db rs) db.platform_user_role_assignments) in
      let right = λ (rs : List Uuid).
        map user' (select (is_tenant_holder s db rs) db.tenant_user_role_assignments) in
      elim (In-append (left ids) (right ids) h) [
        | inl k ↦
            let (g, at, e) =
              In-map user (select (is_platform_holder s db ids) db.platform_user_role_assignments)
                k in
            let (at', held) =
              In-select (is_platform_holder s db ids) db.platform_user_role_assignments at in
            let held' : is_platform_holder s db ids' g ≡ true = ground (arith, more g.role_id) in
            In-append_left (right ids')
              (rw e (map-In user (select-In (is_platform_holder s db ids') at' held')))
        | inr k ↦
            let (g, at, e) =
              In-map user' (select (is_tenant_holder s db ids) db.tenant_user_role_assignments) k in
            let (at', held) =
              In-select (is_tenant_holder s db ids) db.tenant_user_role_assignments at in
            let held' : is_tenant_holder s db ids' g ≡ true = ground (arith, more g.role_id) in
            In-append_right (left ids')
              (rw e (map-In user' (select-In (is_tenant_holder s db ids') at' held')))
      ]

  -- Where a holder is counted there is a role that has the permission.
  pub holder-role :
      (db : Db) (exclude : Option Uuid)
      → (count_override_global_active_holders s exclude db == 0) ≡ false
      → (role_id : Uuid) × (elem role_id (override_role_ids db exclude) ≡ true)
  unfolding count_override_global_active_holders
  holder-role db exclude h =
      let ids = override_role_ids db exclude in
      let by_platform = select (is_platform_holder s db ids) db.platform_user_role_assignments in
      let by_tenant = select (is_tenant_holder s db ids) db.tenant_user_role_assignments in
      let user = λ (g : PlatformUserRoleAssignment). g.platform_user_id in
      let user' = λ (g : TenantUserRoleAssignment). g.tenant_user_id in
      let (i, k) = distinct-some (holders_through s db ids) h in
      elim (In-append (map user by_platform) (map user' by_tenant) k) [
        | inl k' ↦
            let (g, at, _) = In-map user by_platform k' in
            let (_, e) =
              In-select (is_platform_holder s db ids) db.platform_user_role_assignments at in
            (g.role_id, ground arith)
        | inr k' ↦
            let (g, at, _) = In-map user' by_tenant k' in
            let (_, e) = In-select (is_tenant_holder s db ids) db.tenant_user_role_assignments at in
            (g.role_id, ground arith)
      ]

  -- A count of holders stays above zero where the users and their roles are as they were, and no role
  -- has lost the permission.
  pub count_mono :
      (db db' : Db) (exclude exclude' : Option Uuid)
      → ((ids : List Uuid) → holders_through s db' ids ≡ holders_through s db ids)
      → ((r : Uuid)
          → elem r (override_role_ids db exclude) ≡ true
          → elem r (override_role_ids db' exclude') ≡ true)
      → (count_override_global_active_holders s exclude db == 0) ≡ false
      → (count_override_global_active_holders s exclude' db' == 0) ≡ false
  unfolding count_override_global_active_holders
  count_mono db db' exclude exclude' same more h =
      let ids = override_role_ids db exclude in
      let ids' = override_role_ids db' exclude' in
      let (i, k) = distinct-some (holders_through s db ids) h in
      let k' = holders_through_mono db ids ids' more k in
      length-distinct (holders_through s db' ids') {i = i} (rw (same ids') k')

  -- The count reads none of the tables of audit rows.
  pub count-SameTables :
      (db db' : Db) (exclude : Option Uuid)
      → SameTables db db'
      → count_override_global_active_holders s exclude db'
        ≡ count_override_global_active_holders s exclude db
  unfolding count_override_global_active_holders
  count-SameTables db db' exclude same = rw same.role_permissions (
      rw same.permissions (
        rw same.platform_users
          (rw same.tenant_users (rw same.platform_assignments (rw same.tenant_assignments refl)))))
