-- ===== src/Roles/Bootstrap.antt =====
-- `RolesRepo.update` of src/admin_backend/repositories/roles.py and the last active holder of
-- `ADMIN.ROLES.OVERRIDE.GLOBAL`.
use cortex_cm.Base.{
  ◌≡◌, refl, sym, ap, ◌∙◌, inl, inr, true, false, not, ◌&&◌, Option, none, some, List, Text,
  text_eq_sound, arith, any, find, find_sound, find-In, Bool-cases, ◌==◌, IsKey, In, In_of_any,
  select-In, In-append_right, map,
}
use cortex_cm.Result.{ok}
use cortex_cm.Models.Columns.{Uuid}
use cortex_cm.Models.TenantUsers.{ActorUserType}
use cortex_cm.Models.Permissions.{Permission}
use cortex_cm.Models.Roles.{Role, RolePermission}
use cortex_cm.Auth.Context.{AuthContext}
use cortex_cm.Database.Tables.{Db}
use cortex_cm.Database.Session.{Session}
use cortex_cm.Roles.Sets.{elem, elem-minus}
use cortex_cm.Roles.Holders.{
  is_override, grants_override, override_role_ids, override_global_code,
  count_override_global_active_holders,
}
use cortex_cm.Roles.Detail.{RoleDetail}
use cortex_cm.Roles.Update.{
  RoleUpdateRequest, Diff, diff_of, new_ids, grants_of, is_removed, new_grant, write, update,
}
use cortex_cm.Roles.Editing.{IsChecked, Processed, IsEdited, update-eq-ok}
use cortex_cm.Roles.Counting.{
  In-override_role_ids, override_role_ids-In, count_mono, count-SameTables,
}

-- Some active user holds the permission through some role.
abbrev pub IsHeld : Session → Db → Type 0
IsHeld s db = (count_override_global_active_holders s none db == 0) ≡ false

-- `uq_permissions_code`
abbrev pub CodesAreKeys : Db → Type 0
CodesAreKeys db = IsKey (λ (p : Permission). some p.code) db.permissions

override_unique :
    (db : Db) (p o : Permission)
    → CodesAreKeys db
    → In p db.permissions
    → In o db.permissions
    → is_override p ≡ true
    → is_override o ≡ true
    → p ≡ o
override_unique db p o unique i j e f =
    unique p o override_global_code i j (ap some (text_eq_sound p.code override_global_code e))
      (ap some (text_eq_sound o.code override_global_code f))

-- The rows that grant the permission are those of the id that is looked up.
pub grants_override_id :
    (db : Db) (exclude : Option Uuid) (rp : RolePermission) (o : Permission)
    → CodesAreKeys db
    → find is_override db.permissions ≡ some o
    → grants_override db exclude rp ≡ true
    → rp.permission_id ≡ o.id
grants_override_id db exclude rp o unique found e =
    let joined : any (λ p. p.id == rp.permission_id && is_override p) db.permissions ≡ true =
      ground arith in
    let (p, at, f) =
      In_of_any (λ p. p.id == rp.permission_id && is_override p) db.permissions joined in
    let is_o : p ≡ o =
      override_unique db p o unique at (find-In is_override db.permissions found) (ground arith)
        (find_sound is_override db.permissions found) in
    let same_id : p.id ≡ rp.permission_id = ground arith in
    sym same_id ∙ ap (λ (x : Permission). x.id) is_o

module _ (s : Session) (b : RoleUpdateRequest) (actor : Uuid) (actor_type : ActorUserType) where
  -- A row that is not removed goes on granting the permission.
  kept_grant :
      (r : Role) (d : Diff) (db : Db) (exclude : Option Uuid) (rp : RolePermission)
      → In rp db.role_permissions
      → grants_override db exclude rp ≡ true
      → is_removed r.id d.removed rp ≡ false
      → elem rp.role_id (override_role_ids (write b actor actor_type r d db) none) ≡ true
  kept_grant r d db exclude rp at e kept =
      override_role_ids-In (write b actor actor_type r d db) none rp
        (In-append_right (map (new_grant r.id actor actor_type db) d.added)
          (select-In (λ rp. not (is_removed r.id d.removed rp)) at (ground arith)))
        (ground arith)

  write-IsHeld_of :
      (r : Role) (d : Diff) (db : Db) (exclude : Option Uuid)
      → ((rp : RolePermission)
          → grants_override db exclude rp ≡ true
          → is_removed r.id d.removed rp ≡ false)
      → (count_override_global_active_holders s exclude db == 0) ≡ false
      → IsHeld s (write b actor actor_type r d db)
  write-IsHeld_of r d db exclude kept h =
      count_mono s db (write b actor actor_type r d db) exclude none (λ ids. refl)
        (λ role_id e.
          let (rp, at, grants, is_role) = In-override_role_ids db exclude role_id e in
          rw (← is_role) (kept_grant r d db exclude rp at grants (kept rp grants)))
        h

  not_removed :
      (r : Role) (d : Diff) (rp : RolePermission)
      → elem rp.permission_id d.removed ≡ false
      → is_removed r.id d.removed rp ≡ false
  not_removed r d rp e = ground arith

  -- The first layer is enough: what passes it leaves a holder.
  pub checked-IsHeld :
      (r : Role) (new : List Uuid) (db : Db)
      → CodesAreKeys db
      → IsChecked s r new db
      → IsHeld s db
      → IsHeld s (write b actor actor_type r (diff_of new (grants_of r.id db)) db)
  checked-IsHeld r new db unique checked held =
      let d = diff_of new (grants_of r.id db) in
      let o = checked.override in
      elim (Bool-cases (elem o.id (grants_of r.id db) && not (elem o.id new))) [
        | inl taken ↦
            let left = checked.holder_left in
            write-IsHeld_of r d db (some r.id) (λ rp grants. ground arith) (ground arith)
        | inr kept ↦
            write-IsHeld_of r d db none
              (λ rp grants. not_removed r d rp (
                rw (grants_override_id db none rp o unique checked.is_the_override grants)
                  (elem-minus o.id (grants_of r.id db) new ∙ kept)))
              held
      ]

  -- So does every edit of which the permission part has been processed.
  pub Processed-IsHeld :
      (r : Role) (d : Diff) (db : Db)
      → CodesAreKeys db
      → Processed s b r d db
      → IsHeld s db
      → IsHeld s (write b actor actor_type r d db)
  Processed-IsHeld r d db unique (inl (_, e)) held =
      write-IsHeld_of r d db none (λ rp grants. not_removed r d rp (rw e refl)) held
  Processed-IsHeld r d db unique (inr (raw, _, e, checked)) held =
      rw e (checked-IsHeld r (new_ids raw) db unique checked held)

  -- An edit that leaves the permissions alone leaves the holders.
  write_plain-IsHeld :
      (r : Role) (d : Diff) (db : Db)
      → Processed s b r d db
      → d.new ≡ none
      → IsHeld s db
      → IsHeld s (write b actor actor_type r d db)
  write_plain-IsHeld r d db (inl (_, e)) plain held =
      write-IsHeld_of r d db none (λ rp grants. not_removed r d rp (rw e refl)) held
  write_plain-IsHeld r d db (inr (raw, _, e, _)) plain held =
      let clash : some (new_ids raw) ≡ none = sym (ap (λ (x : Diff). x.new) e) ∙ plain in
      absurd (cc)

module _ (sort_names : List Text → List Text) (display : Text → Text → Option Text)
    (order_by : List Permission → List Permission) (s : Session) (b : RoleUpdateRequest)
    (actor : Uuid) (actor_type : ActorUserType) (auth : Option AuthContext)
    (rid : Option Uuid) where
  edited-IsHeld :
      (r : Role) (db db' : Db)
      → IsEdited sort_names display order_by s b actor actor_type auth rid r db db'
      → IsHeld s db
      → IsHeld s db'
  edited-IsHeld r db db' edited held =
      let after = write b actor actor_type r edited.diff db in
      let held' : IsHeld s after = elim edited.is_held [
        | inl plain ↦
            write_plain-IsHeld s b actor actor_type r edited.diff db edited.is_processed plain held
        | inr h ↦ h
      ] in
      rw (count-SameTables s after db' none edited.same_tables) held'

  -- An update that returns leaves an active holder of `ADMIN.ROLES.OVERRIDE.GLOBAL`, if there was one,
  -- whatever the request asks for and whoever makes it.
  pub update-IsHeld :
      (role_id : Uuid) (db : Db) {detail : Option RoleDetail} {db' : Db}
      → update sort_names display order_by s b actor actor_type auth rid role_id db
        ≡ ok (detail, db')
      → IsHeld s db
      → IsHeld s db'
  update-IsHeld role_id db {detail} {db'} h held =
      elim (update-eq-ok sort_names display order_by s b actor actor_type auth rid role_id db h) [
        | inl (_, _, same) ↦ rw same held
        | inr (r, _, _, _, _, edited) ↦ edited-IsHeld r db db' edited held
      ]
