-- ===== src/Roles/Editing.antt =====
-- What `RolesRepo.update` of src/admin_backend/repositories/roles.py has checked and written when it
-- returns.
use cortex_cm.Base.{
  ◌≡◌, refl, sym, ◌∙◌, ◌⊎◌, inl, inr, false, not, ◌&&◌, Option, none, some, List, Text, text_eq,
  arith, Option-cases, any, find, ◌==◌,
}
use mathlib.Core.Path.{subst}
use cortex_cm.Result.{ok}
use cortex_cm.Errors.{
  admin, server, client_error, uncaught, internal_invariant_violation, super_admin_protected,
  role_archived, empty_patch, invalid_permission, audience_scope_mismatch, last_override_holder,
}
use cortex_cm.Models.Columns.{Uuid}
use cortex_cm.Models.TenantUsers.{ActorUserType}
use cortex_cm.Models.Permissions.{Permission}
use cortex_cm.Models.Roles.{Role}
use cortex_cm.Auth.Context.{AuthContext}
use cortex_cm.Database.Tables.{Db}
use cortex_cm.Database.Session.{Session}
use cortex_cm.Database.Txn.{
  Txn, pure, gets, modify, throw_if, ◌>>=◌, ◌>>◌, >>=-eq-ok, after-throw_if, pure-eq-ok, or_throw,
  or_throw-eq-ok, throw_if-eq-ok,
}
use cortex_cm.Audit.Keeps.{SameTables, SameTables-refl, emit_audit_event-SameTables}
use cortex_cm.Roles.Sets.{elem, minus}
use cortex_cm.Roles.Holders.{
  is_override, resolve_override_global_permission_id, count_override_global_active_holders,
}
use cortex_cm.Roles.Detail.{RoleDetail, is_tenant_audience, get_detail_by_id, is_role}
use cortex_cm.Roles.Update.{
  RoleUpdateRequest, Diff, no_diff, diff_of, new_ids, exists, is_global_id, grants_of,
  is_empty_patch, super_admin, is_archived, check_last_holder, process_permissions, check_tripwire,
  write, emit_updated, edit, update, new_name, is_name,
}

-- The permission that the checks on holders are about.
pub resolve-eq-ok :
    (db : Db) {o : Uuid} {db' : Db}
    → resolve_override_global_permission_id db ≡ ok (o, db')
    → (p : Permission) × (find is_override db.permissions ≡ some p) × (o ≡ p.id) × (db' ≡ db)
resolve-eq-ok db {o} {db'} h = elim (Option-cases (find is_override db.permissions)) [
  | inl e ↦ absurd (missing e)
  | inr (p, e) ↦
      let h' : or_throw (some p.id) (admin (server internal_invariant_violation)) db ≡ ok (o, db') =
        rw e at h in
      let (is_id, same) =
        or_throw-eq-ok (some p.id) (admin (server internal_invariant_violation)) h' in
      (p, e, ground arith, same)
]
  where
    missing : find is_override db.permissions ≡ none → ⊥
    missing e = let h' = rw e at h in cc

module _ (s : Session) where
  -- What an edit of the permissions of a role has checked.
  pub record IsChecked (r : Role) (new : List Uuid) (db : Db) : Type 0 where
    pub known : any (λ i. not (exists db i)) new ≡ false
    pub coherent :
        (is_tenant_audience r.audience && any (is_global_id db) (minus new (grants_of r.id db)))
        ≡ false
    pub override : Permission
    pub is_the_override : find is_override db.permissions ≡ some override
    pub holder_left :
        (elem override.id (grants_of r.id db)
          && not (elem override.id new)
          && count_override_global_active_holders s (some r.id) db == 0)
        ≡ false

  check_last_holder-eq-ok :
      (r : Role) (current new : List Uuid) (db : Db) {u : Unit {0}} {db' : Db}
      → check_last_holder s r current new db ≡ ok (u, db')
      → (p : Permission) × (find is_override db.permissions ≡ some p)
        × ((elem p.id current
              && not (elem p.id new)
              && count_override_global_active_holders s (some r.id) db == 0)
            ≡ false)
        × (db' ≡ db)
  check_last_holder-eq-ok r current new db {u} {db'} h =
      let (o, between, first, second) =
        >>=-eq-ok resolve_override_global_permission_id
          (λ o. gets (count_override_global_active_holders s (some r.id)) >>= λ others.
            throw_if (elem o current && not (elem o new) && others == 0)
              (client_error last_override_holder))
          db h in
      let (p, found, is_id, same) = resolve-eq-ok db first in
      let (left, same') =
        throw_if-eq-ok
          (elem o current
            && not (elem o new)
            && count_override_global_active_holders s (some r.id) between == 0)
          (client_error last_override_holder) second in
      (p, found, rw (← is_id) (rw (← same) left), same' ∙ same)

  process_permissions-eq-ok :
      (r : Role) (raw : Option (List Uuid)) (db : Db) {d : Diff} {db' : Db}
      → process_permissions s r (some raw) db ≡ ok (d, db')
      → IsChecked r (new_ids raw) db × (d ≡ diff_of (new_ids raw) (grants_of r.id db)) × (db' ≡ db)
  process_permissions-eq-ok r raw db {d} {db'} h =
      let new = new_ids raw in
      let current = grants_of r.id db in
      let last : Txn Diff = check_last_holder s r current new >> pure (diff_of new current) in
      let coherence : Txn Diff = gets (grants_of r.id) >>= λ current.
      gets (λ db. any (is_global_id db) (minus new current)) >>= λ offending.
      throw_if (is_tenant_audience r.audience && offending) (client_error audience_scope_mismatch)
      >> (check_last_holder s r current new >> pure (diff_of new current)) in
      let (known, h1) =
        after-throw_if (any (λ i. not (exists db i)) new) (client_error invalid_permission)
          coherence db h in
      let (coherent, h2) =
        after-throw_if (is_tenant_audience r.audience && any (is_global_id db) (minus new current))
          (client_error audience_scope_mismatch) last db h1 in
      let (u, between, first, second) =
        >>=-eq-ok (check_last_holder s r current new) (λ _. pure (diff_of new current)) db h2 in
      let (p, found, left, same) = check_last_holder-eq-ok r current new db first in
      let (is_diff, same') = pure-eq-ok second in
      (
        record {
          known = known;
          coherent = coherent;
          override = p;
          is_the_override = found;
          holder_left = left;
        },
        is_diff,
        same' ∙ same,
      )

  pub process_permissions-none-eq-ok :
      (r : Role) (db : Db) {d : Diff} {db' : Db}
      → process_permissions s r none db ≡ ok (d, db')
      → (d ≡ no_diff) × (db' ≡ db)
  process_permissions-none-eq-ok r db h = pure-eq-ok h

  -- The second layer, if it lets a transaction pass.
  check_tripwire-eq-ok :
      (new : List Uuid) (db : Db) {u : Unit {0}} {db' : Db}
      → check_tripwire s (some new) db ≡ ok (u, db')
      → ((count_override_global_active_holders s none db == 0) ≡ false) × (db' ≡ db)
  check_tripwire-eq-ok new db h =
      let (o, between, first, second) =
        >>=-eq-ok resolve_override_global_permission_id
          (λ _. gets (count_override_global_active_holders s none) >>= λ holders.
            throw_if (holders == 0) (admin (server internal_invariant_violation)))
          db h in
      let (p, found, is_id, same) = resolve-eq-ok db first in
      let (some_left, same') =
        throw_if-eq-ok (count_override_global_active_holders s none between == 0)
          (admin (server internal_invariant_violation)) second in
      (rw (← same) some_left, same' ∙ same)

module _ (s : Session) (b : RoleUpdateRequest) where
  -- What the permission part of an edit asks for and has found.
  abbrev pub Processed : Role → Diff → Db → Type 0
  Processed r d db =
      ((b.permission_ids ≡ none) × (d ≡ no_diff))
      ⊎ ((raw : Option (List Uuid)) × (b.permission_ids ≡ some raw)
          × (d ≡ diff_of (new_ids raw) (grants_of r.id db))
          × IsChecked s r (new_ids raw) db)

  pub processed :
      (r : Role) (db : Db) {d : Diff} {db' : Db}
      → process_permissions s r b.permission_ids db ≡ ok (d, db')
      → Processed r d db × (db' ≡ db)
  processed r db {d} {db'} h = elim (Option-cases b.permission_ids) [
    | inl e ↦
        let (is_d, same) = process_permissions-none-eq-ok s r db (rw e at h) in
        (inl (e, is_d), same)
    | inr (raw, e) ↦
        let (checked, is_d, same) = process_permissions-eq-ok s r raw db (rw e at h) in
        (inr (raw, e, is_d, checked), same)
  ]

module _ (sort_names : List Text → List Text) (s : Session) where
  emit_updated-SameTables :
      (b : RoleUpdateRequest) (r : Role) (d : Diff) (auth : Option AuthContext) (rid : Option Uuid)
      (detail : Option RoleDetail) (db : Db) {db' : Db}
      → emit_updated sort_names s b r d auth rid detail db ≡ ok (tt, db')
      → SameTables db db'
  emit_updated-SameTables b r d none none detail db {db'} h =
      let (_, same) = pure-eq-ok h in rw same (SameTables-refl db)
  emit_updated-SameTables b r d none (some rid) detail db h = absurd (cc)
  emit_updated-SameTables b r d (some a) none detail db h = absurd (cc)
  emit_updated-SameTables b r d (some a) (some rid) none db h = absurd (cc)
  emit_updated-SameTables b r d (some a) (some rid) (some detail) db h =
      emit_audit_event-SameTables sort_names s a _ db h

module _ (sort_names : List Text → List Text) (display : Text → Text → Option Text)
    (order_by : List Permission → List Permission) (s : Session) (b : RoleUpdateRequest)
    (actor : Uuid) (actor_type : ActorUserType) (auth : Option AuthContext)
    (rid : Option Uuid) where
  -- An edit that returns: its checks, what it wrote, and nothing else but audit rows.
  pub record IsEdited (r : Role) (db db' : Db) : Type 0 where
    pub diff : Diff
    pub is_processed : Processed s b r diff db
    pub is_held :
        (diff.new ≡ none)
        ⊎ ((count_override_global_active_holders s none (write b actor actor_type r diff db) == 0)
            ≡ false)
    pub same_tables : SameTables (write b actor actor_type r diff db) db'

  tripwire_passed :
      (new : Option (List Uuid)) (db : Db) {u : Unit {0}} {db' : Db}
      → check_tripwire s new db ≡ ok (u, db')
      → ((new ≡ none) ⊎ ((count_override_global_active_holders s none db == 0) ≡ false))
        × (db' ≡ db)
  tripwire_passed none db h = let (_, same) = pure-eq-ok h in (inl refl, same)
  tripwire_passed (some new) db h =
      let (held, same) = check_tripwire-eq-ok s new db h in (inr held, same)

  -- The statements of an edit behind the write, and behind the checks of the permissions.
  abbrev pub answer : Role → Diff → Txn (Option RoleDetail)
  answer r d = gets (get_detail_by_id display order_by s r.id none) >>= λ detail.
      emit_updated sort_names s b r d auth rid detail >> pure detail

  abbrev pub write_part : Role → Diff → Txn (Option RoleDetail)
  write_part r d =
      throw_if (not (is_name (new_name b.name r.name))) uncaught
      >> (modify (write b actor actor_type r d) >> (check_tripwire s d.new >> answer r d))

  answer-eq-ok :
      (r : Role) (d : Diff) (db : Db) {detail : Option RoleDetail} {db' : Db}
      → answer r d db ≡ ok (detail, db')
      → SameTables db db'
  answer-eq-ok r d db {detail} {db'} h =
      let found = get_detail_by_id display order_by s r.id none db in
      let (u, between, first, second) =
        >>=-eq-ok (emit_updated sort_names s b r d auth rid found) (λ _. pure found) db h in
      let (_, same) = pure-eq-ok second in
      subst (SameTables db) (sym same)
        (emit_updated-SameTables sort_names s b r d auth rid found db first)

  write_part-eq-ok :
      (r : Role) (d : Diff) (db : Db) {detail : Option RoleDetail} {db' : Db}
      → write_part r d db ≡ ok (detail, db')
      → ((d.new ≡ none)
          ⊎ ((count_override_global_active_holders s none (write b actor actor_type r d db) == 0)
              ≡ false))
        × SameTables (write b actor actor_type r d db) db'
  write_part-eq-ok r d db {detail} {db'} h =
      let db1 = write b actor actor_type r d db in
      let (named, h1) =
        after-throw_if (not (is_name (new_name b.name r.name))) uncaught
          (modify (write b actor actor_type r d) >> (check_tripwire s d.new >> answer r d)) db h in
      let (_, db2, first, second) = >>=-eq-ok (check_tripwire s d.new) (λ _. answer r d) db1 h1 in
      let (held, same) = tripwire_passed d.new db1 first in
      (held, subst (λ (x : Db). SameTables x db') same (answer-eq-ok r d db2 second))

  edit-eq-ok :
      (r : Role) (db : Db) {detail : Option RoleDetail} {db' : Db}
      → edit sort_names display order_by s b actor actor_type auth rid r db ≡ ok (detail, db')
      → IsEdited r db db'
  edit-eq-ok r db {detail} {db'} h =
      let (d, db1, first, h1) =
        >>=-eq-ok (process_permissions s r b.permission_ids) (λ d. write_part r d) db h in
      let (found, same) = processed s b r db first in
      let h2 : write_part r d db ≡ ok (detail, db') =
        subst (λ (x : Db). write_part r d x ≡ ok (detail, db')) same h1 in
      let (held, kept) = write_part-eq-ok r d db h2 in
      record { diff = d; is_processed = found; is_held = held; same_tables = kept }

  -- An update that returns has found no role and done nothing, or has edited the role that it found,
  -- which is neither archived nor the protected one.
  pub update-eq-ok :
      (role_id : Uuid) (db : Db) {detail : Option RoleDetail} {db' : Db}
      → update sort_names display order_by s b actor actor_type auth rid role_id db
        ≡ ok (detail, db')
      → ((find (is_role role_id none) db.roles ≡ none) × (detail ≡ none) × (db' ≡ db))
        ⊎ ((r : Role) × (find (is_role role_id none) db.roles ≡ some r)
            × (text_eq r.code super_admin ≡ false)
            × (is_archived r.status ≡ false)
            × (is_empty_patch b ≡ false)
            × IsEdited r db db')
  unfolding update
  update-eq-ok role_id db {detail} {db'} h =
      elim (Option-cases (find (is_role role_id none) db.roles)) [
        | inl e ↦ let (is_none, same) = pure-eq-ok (rw e at h) in inl (e, is_none, same)
        | inr (r, e) ↦
            let run = edit sort_names display order_by s b actor actor_type auth rid r in
            let (ordinary, h1) =
              after-throw_if (text_eq r.code super_admin) (client_error super_admin_protected)
                (throw_if (is_archived r.status) (client_error role_archived)
                  >> (throw_if (is_empty_patch b) (client_error empty_patch) >> run))
                db (rw e at h) in
            let (live, h2) =
              after-throw_if (is_archived r.status) (client_error role_archived)
                (throw_if (is_empty_patch b) (client_error empty_patch) >> run) db h1 in
            let (sent, h3) =
              after-throw_if (is_empty_patch b) (client_error empty_patch) run db h2 in
            inr (r, e, ordinary, live, sent, edit-eq-ok r db h3)
      ]
