-- ===== src/Roles/Invariant.antt =====
-- What every update of a role keeps of the tables `roles` and `role_permissions`
-- (src/admin_backend/repositories/roles.py).
use cortex_cm.Base.{
  ◌≡◌, refl, sym, ap, ◌∙◌, inl, inr, true, false, not, ◌&&◌, Option, none, some, List, map, Text,
  arith, any, find, find-In, select, update_where, ◌==◌, ==_refl, IsKey, In, In-append, In-map,
  In-select, any_of_In, In-update_where, update_where-IsKey,
}
use cortex_cm.Result.{ok}
use cortex_cm.Models.Columns.{Uuid}
use cortex_cm.Models.TenantUsers.{ActorUserType}
use cortex_cm.Models.Permissions.{Permission, global}
use cortex_cm.Models.Roles.{Role, RolePermission, tenant}
use cortex_cm.Auth.Context.{AuthContext}
use cortex_cm.Database.Tables.{Db}
use cortex_cm.Database.Session.{Session}
use cortex_cm.Roles.Detail.{RoleDetail, is_role, is_global, is_tenant_audience}
use cortex_cm.Roles.Update.{
  RoleUpdateRequest, Diff, is_global_id, is_removed, new_grant, set_fields, write, update,
}
use cortex_cm.Roles.Editing.{Processed, IsEdited, update-eq-ok}
use cortex_cm.Roles.Bootstrap.{IsHeld, CodesAreKeys, update-IsHeld}

abbrev pub RoleIdsAreKeys : Db → Type 0
RoleIdsAreKeys db = IsKey (λ (r : Role). some r.id) db.roles

-- No role for tenants has a global permission.
abbrev pub IsCoherent : Db → Type 0
IsCoherent db =
    (rp : RolePermission) (r : Role) (p : Permission)
    → In rp db.role_permissions
    → In r db.roles
    → In p db.permissions
    → r.id ≡ rp.role_id
    → p.id ≡ rp.permission_id
    → r.audience ≡ tenant
    → ¬ (p.scope ≡ global)

-- The tables of roles and grants: keys, no role above its audience, and an active holder of
-- `ADMIN.ROLES.OVERRIDE.GLOBAL`.
pub record IsSound (s : Session) (db : Db) : Type 0 where
  pub role_ids : RoleIdsAreKeys db
  pub codes : CodesAreKeys db
  pub coherent : IsCoherent db
  pub held : IsHeld s db

module _ (s : Session) (b : RoleUpdateRequest) (actor : Uuid) (actor_type : ActorUserType) where
  -- A row of the updated table stands for one of the same id and audience.
  same_role :
      (r : Role) (db : Db) {x : Role}
      → In x (update_where (λ y. y.id == r.id) (set_fields b actor actor_type db) db.roles)
      → (y : Role) × In y db.roles × (x.id ≡ y.id) × (x.audience ≡ y.audience)
  same_role r db {x} at =
      let (y, at', c) =
        In-update_where (λ (y : Role). y.id == r.id) (set_fields b actor actor_type db) db.roles
          at in
      elim c [
        | inl (_, e) ↦ (y, at', ap (λ (z : Role). z.id) e, ap (λ (z : Role). z.audience) e)
        | inr (_, e) ↦ (y, at', ap (λ (z : Role). z.id) e, ap (λ (z : Role). z.audience) e)
      ]

  -- The permissions that an edit adds have passed the check on audiences.
  AddsNone : Role → Diff → Db → Type 0
  AddsNone r d db = (is_tenant_audience r.audience && any (is_global_id db) d.added) ≡ false

  Processed-AddsNone : (r : Role) (d : Diff) (db : Db) → Processed s b r d db → AddsNone r d db
  unfolding AddsNone
  Processed-AddsNone r d db (inl (_, e)) = rw e (ground arith)
  Processed-AddsNone r d db (inr (raw, _, e, checked)) = rw e checked.coherent

  write-IsCoherent :
      (r : Role) (d : Diff) (db : Db)
      → In r db.roles
      → RoleIdsAreKeys db
      → AddsNone r d db
      → IsCoherent db
      → IsCoherent (write b actor actor_type r d db)
  unfolding AddsNone
  write-IsCoherent r d db at_r keys adds coherent rp x p at at_x at_p is_x is_p for_tenant is_g =
      let (y, at_y, same_id, same_audience) = same_role r db at_x in
      elim (In-append (map (new_grant r.id actor actor_type db) d.added)
        (select (λ rp. not (is_removed r.id d.removed rp)) db.role_permissions) at) [
          | inl fresh ↦
              let (i, at_i, e) = In-map (new_grant r.id actor actor_type db) d.added fresh in
              let y_is_r : y ≡ r =
                keys y r r.id at_y at_r
                  (ap some (sym same_id ∙ is_x ∙ ap (λ (z : RolePermission). z.role_id) e)) refl in
              let r_for_tenant : r.audience ≡ tenant =
                ap (λ (z : Role). z.audience) (sym y_is_r) ∙ sym same_audience ∙ for_tenant in
              let p_is_i : p.id ≡ i = is_p ∙ ap (λ (z : RolePermission). z.permission_id) e in
              let is_global_i : is_global_id db i ≡ true =
                any_of_In (λ (z : Permission). z.id == i && is_global z.scope) at_p
                  (rw p_is_i (rw is_g (rw (==_refl i) refl))) in
              let offends : any (is_global_id db) d.added ≡ true =
                any_of_In (is_global_id db) at_i is_global_i in
              let refused = rw (r_for_tenant, offends) at adds in cc
          | inr old ↦
              let (at', _) =
                In-select (λ rp. not (is_removed r.id d.removed rp)) db.role_permissions old in
              coherent rp y p at' at_y at_p (sym same_id ∙ is_x) is_p
                (sym same_audience ∙ for_tenant) is_g
        ]

module _ (sort_names : List Text → List Text) (display : Text → Text → Option Text)
    (order_by : List Permission → List Permission) (s : Session) (b : RoleUpdateRequest)
    (actor : Uuid) (actor_type : ActorUserType) (auth : Option AuthContext)
    (rid : Option Uuid) where
  edited-IsSound :
      (role_id : Uuid) (r : Role) (db db' : Db)
      → find (is_role role_id none) db.roles ≡ some r
      → IsEdited sort_names display order_by s b actor actor_type auth rid r db db'
      → IsHeld s db'
      → IsSound s db
      → IsSound s db'
  edited-IsSound role_id r db db' found edited held' sound =
      let d = edited.diff in
      let same = edited.same_tables in
      let set = set_fields b actor actor_type db in
      let written =
        write-IsCoherent s b actor actor_type r d db (find-In (is_role role_id none) db.roles found)
          sound.role_ids (Processed-AddsNone s b actor actor_type r d db edited.is_processed)
          sound.coherent in
      record {
        role_ids = rw same.roles (
            update_where-IsKey (λ (x : Role). some x.id) (λ x. x.id == r.id) set db.roles
              (λ x. refl) sound.role_ids);
        codes = rw same.permissions sound.codes;
        coherent = λ rp x p at at_x at_p.
            written rp x p (rw same.role_permissions at at) (rw same.roles at at_x)
              (rw same.permissions at at_p);
        held = held';
      }

  -- Every update that returns keeps the tables of roles and grants sound: ids of roles and codes of
  -- permissions are keys, no role for tenants has a global permission, and some active user holds
  -- `ADMIN.ROLES.OVERRIDE.GLOBAL`.
  pub update-IsSound :
      (role_id : Uuid) (db : Db) {detail : Option RoleDetail} {db' : Db}
      → update sort_names display order_by s b actor actor_type auth rid role_id db
        ≡ ok (detail, db')
      → IsSound s db
      → IsSound s db'
  update-IsSound role_id db {detail} {db'} h sound =
      elim (update-eq-ok sort_names display order_by s b actor actor_type auth rid role_id db h) [
        | inl (_, _, same) ↦ rw same sound
        | inr (r, found, _, _, _, edited) ↦
            edited-IsSound role_id r db db' found edited
              (update-IsHeld sort_names display order_by s b actor actor_type auth rid role_id db h
                sound.held)
              sound
      ]
