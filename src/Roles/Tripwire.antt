-- ===== src/Roles/Tripwire.antt =====
-- The second layer of `RolesRepo.update` of src/admin_backend/repositories/roles.py: the error
-- `InternalInvariantViolationError`.
use cortex_cm.Base.{
  ◌≡◌, ◌↔◌, inl, inr, not, ◌&&◌, Option, none, some, List, Text, text_eq, any, find, Option-cases,
  ◌==◌,
}
use cortex_cm.Result.{raise}
use cortex_cm.Errors.{
  client_error, uncaught, admin, server, internal_invariant_violation, super_admin_protected,
  role_archived, empty_patch, invalid_permission, audience_scope_mismatch, last_override_holder,
}
use cortex_cm.Models.Columns.{Uuid}
use cortex_cm.Models.TenantUsers.{ActorUserType}
use cortex_cm.Models.Permissions.{Permission}
use cortex_cm.Models.Roles.{Role}
use cortex_cm.Auth.Context.{AuthContext}
use cortex_cm.Database.Tables.{Db}
use cortex_cm.Database.Session.{Session}
use cortex_cm.Database.Txn.{Txn, pure, gets, modify, throw_if, ◌>>=◌, ◌>>◌, >>=-ne-raise}
use cortex_cm.Roles.Refusals.{
  lost, Silent, throw_if-Silent, after_check-Silent, held-override, answer-Silent,
}
use cortex_cm.Roles.LastHolder.{TakesLast, update-last_iff}
use cortex_cm.Roles.Sets.{elem, minus}
use cortex_cm.Roles.Holders.{
  resolve_override_global_permission_id, count_override_global_active_holders,
}
use cortex_cm.Roles.Detail.{is_tenant_audience, is_role}
use cortex_cm.Roles.Update.{
  RoleUpdateRequest, Diff, new_ids, diff_of, exists, is_global_id, grants_of, is_empty_patch,
  super_admin, is_archived, check_last_holder, process_permissions, check_tripwire, write, edit,
  update, new_name, is_name,
}
use cortex_cm.Roles.Editing.{resolve-eq-ok, processed, write_part, answer}
use cortex_cm.Roles.Bootstrap.{IsHeld, CodesAreKeys, Processed-IsHeld}

module _ (s : Session) where
  resolve-Silent : (db : Db) → IsHeld s db → Silent lost resolve_override_global_permission_id db
  resolve-Silent db held h = let (p, e) = held-override s db held in let h' = rw e at h in cc

  check_last_holder-Silent :
      (r : Role) (current new : List Uuid) (db : Db)
      → IsHeld s db
      → Silent lost (check_last_holder s r current new) db
  check_last_holder-Silent r current new db held =
      >>=-ne-raise resolve_override_global_permission_id
        (λ o. gets (count_override_global_active_holders s (some r.id)) >>= λ others.
          throw_if (elem o current && not (elem o new) && others == 0)
            (client_error last_override_holder))
        db lost (resolve-Silent db held)
        (λ o between e.
          throw_if-Silent _ (client_error last_override_holder) lost between (λ q. cc))

  process_permissions-Silent :
      (r : Role) (ids : Option (Option (List Uuid))) (db : Db)
      → IsHeld s db
      → Silent lost (process_permissions s r ids) db
  process_permissions-Silent r none db held h = absurd (cc)
  process_permissions-Silent r (some raw) db held h =
      let new = new_ids raw in
      let current = grants_of r.id db in
      let last : Txn Diff = check_last_holder s r current new >> pure (diff_of new current) in
      let coherence : Txn Diff = gets (grants_of r.id) >>= λ current.
      gets (λ db. any (is_global_id db) (minus new current)) >>= λ offending.
      throw_if (is_tenant_audience r.audience && offending) (client_error audience_scope_mismatch)
      >> (check_last_holder s r current new >> pure (diff_of new current)) in
      after_check-Silent (any (λ i. not (exists db i)) new) (client_error invalid_permission) lost
        coherence db (λ q. cc)
        (after_check-Silent
          (is_tenant_audience r.audience && any (is_global_id db) (minus new current))
          (client_error audience_scope_mismatch) lost last db (λ q. cc)
          (>>=-ne-raise (check_last_holder s r current new) (λ _. pure (diff_of new current)) db
            lost (check_last_holder-Silent r current new db held) (λ u between e q. cc)))
        h

  -- After the first layer the second one passes.
  check_tripwire-Silent :
      (new : Option (List Uuid)) (db : Db) → IsHeld s db → Silent lost (check_tripwire s new) db
  check_tripwire-Silent none db held h = absurd (cc)
  check_tripwire-Silent (some new) db held h =
      >>=-ne-raise resolve_override_global_permission_id
        (λ _. gets (count_override_global_active_holders s none) >>= λ holders.
          throw_if (holders == 0) lost)
        db lost (resolve-Silent db held)
        (λ o between e h.
          let (_, _, _, same) = resolve-eq-ok db e in let h' = rw (same, held) at h in absurd (cc))
        h

module _ (sort_names : List Text → List Text) (display : Text → Text → Option Text)
    (order_by : List Permission → List Permission) (s : Session) (b : RoleUpdateRequest)
    (actor : Uuid) (actor_type : ActorUserType) (auth : Option AuthContext)
    (rid : Option Uuid) where
  edit-Silent :
      (r : Role) (db : Db)
      → CodesAreKeys db
      → IsHeld s db
      → Silent lost (edit sort_names display order_by s b actor actor_type auth rid r) db
  edit-Silent r db unique held =
      >>=-ne-raise (process_permissions s r b.permission_ids)
        (λ d. write_part sort_names display order_by s b actor actor_type auth rid r d) db lost
        (process_permissions-Silent s r b.permission_ids db held)
        (λ d between first.
          let (found, same) = processed s b r db first in
          let held' = Processed-IsHeld s b actor actor_type r d db unique found held in
          let tail = answer sort_names display order_by s b actor actor_type auth rid r d in
          rw same (
            after_check-Silent (not (is_name (new_name b.name r.name))) uncaught lost
              (modify (write b actor actor_type r d) >> (check_tripwire s d.new >> tail)) db
              (λ q. cc)
              (>>=-ne-raise (check_tripwire s d.new) (λ _. tail) (write b actor actor_type r d db)
                lost (check_tripwire-Silent s d.new (write b actor actor_type r d db) held')
                (λ u after e.
                  answer-Silent sort_names lost (λ q. cc) s b display order_by actor actor_type auth
                    rid r d after))))

  update-ne-lost :
      (role_id : Uuid) (db : Db)
      → CodesAreKeys db
      → IsHeld s db
      → ¬ (update sort_names display order_by s b actor actor_type auth rid role_id db ≡ raise lost)
  unfolding update
  update-ne-lost role_id db unique held h =
      elim (Option-cases (find (is_role role_id none) db.roles)) [
        | inl e ↦ let h' = rw e at h in absurd (cc)
        | inr (r, e) ↦
            let run = edit sort_names display order_by s b actor actor_type auth rid r in
            after_check-Silent (text_eq r.code super_admin) (client_error super_admin_protected)
              lost
              (throw_if (is_archived r.status) (client_error role_archived)
                >> (throw_if (is_empty_patch b) (client_error empty_patch) >> run))
              db (λ q. cc)
              (after_check-Silent (is_archived r.status) (client_error role_archived) lost
                (throw_if (is_empty_patch b) (client_error empty_patch) >> run) db (λ q. cc)
                (after_check-Silent (is_empty_patch b) (client_error empty_patch) lost run db
                  (λ q. cc) (edit-Silent r db unique held)))
              (rw e at h)
      ]

  -- The two layers decide the same, where codes are keys of the catalogue and some active user holds
  -- `ADMIN.ROLES.OVERRIDE.GLOBAL`. No update ends in `InternalInvariantViolationError`, the error of the
  -- second layer; and an update ends in `LastOverrideHolderError`, the error of the first one, exactly
  -- if it passes the checks before it and the database that its writes would make has no active holder
  -- by the count of the second layer.
  pub update-tripwire :
      (role_id : Uuid) (db : Db)
      → CodesAreKeys db
      → IsHeld s db
      → ¬ (
          update sort_names display order_by s b actor actor_type auth rid role_id db
          ≡ raise (admin (server internal_invariant_violation)))
        × ((update sort_names display order_by s b actor actor_type auth rid role_id db
              ≡ raise (client_error last_override_holder))
            ↔ TakesLast s b actor actor_type role_id db)
  update-tripwire role_id db unique held = (
    update-ne-lost role_id db unique held,
    update-last_iff sort_names display order_by s b actor actor_type auth rid role_id db unique
        held,
  )
