-- ===== src/Roles/LastCheck.antt =====
-- `check_last_holder` and the permission part of `RolesRepo.update` of
-- src/admin_backend/repositories/roles.py: what the error `LastOverrideHolderError` says.
use cortex_cm.Base.{
  ◌≡◌, ◌↔◌, refl, sym, ap, ◌∙◌, inl, inr, Bool, true, false, not, ◌&&◌, Option, none, some, List,
  arith, any, find, select, map, Bool-cases, ◌==◌, ==_refl, In-append, In-map, In-select, any_of_In,
}
use cortex_cm.Result.{raise}
use cortex_cm.Errors.{client_error, invalid_permission, audience_scope_mismatch}
use cortex_cm.Models.Columns.{Uuid}
use cortex_cm.Models.TenantUsers.{ActorUserType}
use cortex_cm.Models.Permissions.{Permission}
use cortex_cm.Models.Roles.{Role, RolePermission}
use cortex_cm.Database.Tables.{Db}
use cortex_cm.Database.Session.{Session}
use cortex_cm.Database.Txn.{
  Txn, pure, gets, throw_if, ◌>>=◌, ◌>>◌, >>=-eq-raise, after-throw_if-eq-raise, throw_if-eq-raise,
}
use cortex_cm.Roles.Sets.{elem, minus, elem-minus}
use cortex_cm.Roles.Holders.{is_override, override_role_ids, count_override_global_active_holders}
use cortex_cm.Roles.Detail.{is_tenant_audience, is_role}
use cortex_cm.Roles.Update.{
  RoleUpdateRequest, Diff, diff_of, new_ids, exists, is_global_id, grants_of, is_removed, new_grant,
  check_last_holder, process_permissions, write,
}
use cortex_cm.Roles.Counting.{In-override_role_ids, override_role_ids-In, count_mono}
use cortex_cm.Roles.Bootstrap.{CodesAreKeys, grants_override_id}
use cortex_cm.Roles.Refusals.{last}

module _ (s : Session) where
  -- The condition of the first layer.
  abbrev pub is_last : Role → List Uuid → Permission → Db → Bool
  is_last r new o db =
      elem o.id (grants_of r.id db)
      && not (elem o.id new)
      && count_override_global_active_holders s (some r.id) db == 0

  module _ (b : RoleUpdateRequest) (actor : Uuid) (actor_type : ActorUserType) where
    -- The database that the writes of an edit of the permissions would make.
    abbrev edited : Role → List Uuid → Db → Db
    edited r new db = write b actor actor_type r (diff_of new (grants_of r.id db)) db

    -- A role that has the permission after the edit is another role, which had it before.
    had_override :
        (r : Role) (new : List Uuid) (o : Permission) (db : Db) (role_id : Uuid)
        → CodesAreKeys db
        → find is_override db.permissions ≡ some o
        → (elem o.id (grants_of r.id db) && not (elem o.id new)) ≡ true
        → elem role_id (override_role_ids (edited r new db) none) ≡ true
        → elem role_id (override_role_ids db (some r.id)) ≡ true
    had_override r new o db role_id unique found taken e =
        let current = grants_of r.id db in
        let fresh = map (new_grant r.id actor actor_type db) (minus new current) in
        let (rp, at, grants, is_role) = In-override_role_ids (edited r new db) none role_id e in
        let is_o : rp.permission_id ≡ o.id = grants_override_id db none rp o unique found grants in
        elim (In-append fresh
          (select (λ rp. not (is_removed r.id (minus current new) rp)) db.role_permissions) at) [
            | inl k ↦
                let (i, at_i, is_new) =
                  In-map (new_grant r.id actor actor_type db) (minus new current) k in
                let same : i ≡ o.id =
                  sym (ap (λ (x : RolePermission). x.permission_id) is_new) ∙ is_o in
                let added : elem o.id (minus new current) ≡ true =
                  any_of_In (λ j. j == o.id) at_i (rw same (==_refl o.id)) in
                let wanted : (elem o.id new && not (elem o.id current)) ≡ true =
                  sym (elem-minus o.id new current) ∙ added in
                absurd (ground arith)
            | inr k ↦
                let (at', kept) =
                  In-select (λ rp. not (is_removed r.id (minus current new) rp)) db.role_permissions
                    k in
                let removed : elem rp.permission_id (minus current new) ≡ true =
                  rw is_o (elem-minus o.id current new ∙ taken) in
                let elsewhere : (rp.role_id == r.id) ≡ false = ground arith in
                rw (← is_role) (override_role_ids-In db (some r.id) rp at' (ground arith))
          ]

    pub is_last-empty :
        (r : Role) (new : List Uuid) (o : Permission) (db : Db)
        → CodesAreKeys db
        → find is_override db.permissions ≡ some o
        → is_last r new o db ≡ true
        → (count_override_global_active_holders s none (edited r new db) == 0) ≡ true
    is_last-empty r new o db unique found e =
        elim (Bool-cases (count_override_global_active_holders s none (edited r new db) == 0)) [
          | inl q ↦ q
          | inr q ↦
              let others : (count_override_global_active_holders s (some r.id) db == 0) ≡ false =
                count_mono s (edited r new db) db none (some r.id) (λ ids. refl)
                  (λ role_id k. had_override r new o db role_id unique found (ground arith) k) q in
              absurd (ground arith)
        ]

  last_check :
      (r : Role) (new : List Uuid) (o : Permission) (db : Db)
      → find is_override db.permissions ≡ some o
      → check_last_holder s r (grants_of r.id db) new db ≡ throw_if (is_last r new o db) last db
  last_check r new o db found = rw found refl

  module _ (r : Role) (raw : Option (List Uuid)) (db : Db) where
    abbrev missing : Bool
    missing = any (λ i. not (exists db i)) (new_ids raw)

    abbrev incoherent : Bool
    incoherent =
        is_tenant_audience r.audience
        && any (is_global_id db) (minus (new_ids raw) (grants_of r.id db))

    abbrev checked : Txn Diff
    checked =
        check_last_holder s r (grants_of r.id db) (new_ids raw)
        >> pure (diff_of (new_ids raw) (grants_of r.id db))

    abbrev coherence : Txn Diff
    coherence = gets (grants_of r.id) >>= λ current.
        gets (λ db. any (is_global_id db) (minus (new_ids raw) current)) >>= λ offending.
        throw_if (is_tenant_audience r.audience && offending) (client_error audience_scope_mismatch)
        >> (check_last_holder s r current (new_ids raw) >> pure (diff_of (new_ids raw) current))

    checked-last :
        (o : Permission)
        → find is_override db.permissions ≡ some o
        → checked db ≡ raise last
        → is_last r (new_ids raw) o db ≡ true
    checked-last o found h =
        elim (>>=-eq-raise (check_last_holder s r (grants_of r.id db) (new_ids raw))
          (λ _. pure (diff_of (new_ids raw) (grants_of r.id db))) db h) [
            | inl q ↦
                throw_if-eq-raise (is_last r (new_ids raw) o db) last db
                  (sym (last_check r (new_ids raw) o db found) ∙ q)
            | inr (u, between, e, q) ↦ absurd (cc)
          ]

    -- The permission part of an edit refuses the last holder exactly behind its two other checks.
    pub process_permissions-last :
        (o : Permission)
        → find is_override db.permissions ≡ some o
        → (process_permissions s r (some raw) db ≡ raise last)
          ↔ ((missing ≡ false) × (incoherent ≡ false) × (is_last r (new_ids raw) o db ≡ true))
    process_permissions-last o found = (
      λ h.
          let (known, h1) =
            after-throw_if-eq-raise missing (client_error invalid_permission) coherence db (λ q. cc)
              h in
          let (coherent, h2) =
            after-throw_if-eq-raise incoherent (client_error audience_scope_mismatch) checked db
              (λ q. cc) h1 in
          (known, coherent, checked-last o found h2),
      λ p. let (known, coherent, e) = p in rw (known, coherent, found, e) refl,
    )
