-- ===== src/Users/Report.antt =====
-- The audit rows of src/admin_backend/repositories/tenant_users.py: the events that its methods
-- emit, in the transaction of the write.
use cortex_cm.Base.{false, Option, none, some, List, Text, codes}
use mathlib.Core.Path.{◌≡◌, sym, subst}
use cortex_cm.Result.{ok}
use cortex_cm.Errors.{uncaught}
use cortex_cm.Models.Columns.{Uuid, Json}
use cortex_cm.Models.AuditLogs.{AuditResultType}
use cortex_cm.Auth.Context.{AuthContext}
use cortex_cm.Database.Tables.{Db}
use cortex_cm.Database.Session.{Session}
use cortex_cm.Database.Txn.{Txn, pure, throw, gets, ◌>>=◌, ◌>>◌, >>=-eq-ok, pure-eq-ok}
use cortex_cm.Audit.Emit.{Event, emit_audit_event}
use cortex_cm.Audit.Keeps.{SameTables, SameTables-refl, emit_audit_event-SameTables}
use cortex_cm.Users.Validate.{tenant_name_for}

-- The arguments of every `emit_audit_event` of the repository.
abbrev pub user_event : Session → Text → Uuid → Text → Json → Uuid → Db → Uuid → Event
user_event s action user_id label details t db rid = record {
  action = action;
  action_label = none;
  resource_type = codes "TENANT_USER";
  resource_id = some user_id;
  resource_label = some label;
  resource_subtype = none;
  result_type = AuditResultType.success;
  result_label = none;
  details = details;
  tenant_id = some t;
  tenant_name = some (tenant_name_for s t db);
  request_id = rid;
  route_to_platform = false;
}

module _ (sort_names : List Text → List Text) (s : Session) {Row : Type 0}
    (event : Row → Db → Uuid → Event) where
  -- `if auth is not None and request_id is not None and row is not None: ...` and the `ValueError`
  -- where only some of them are there.
  abbrev pub emit_paired : Option AuthContext → Option Uuid → Option Row → Txn (Unit {0})
  emit_paired none none row = pure tt
  emit_paired (some a) (some rid) (some row) = do
    e ← gets (λ db. event row db rid)
    emit_audit_event sort_names s a e
  emit_paired _ _ _ = throw uncaught

  -- A report changes no table but those of audit rows.
  pub emit_paired-SameTables :
      (a : Option AuthContext) (rid : Option Uuid) (row : Option Row) (db : Db) {db' : Db}
      → emit_paired a rid row db ≡ ok (tt, db')
      → SameTables db db'
  emit_paired-SameTables none none row db h =
      subst (SameTables db) (sym ((pure-eq-ok h).1)) (SameTables-refl db)
  emit_paired-SameTables (some a) (some rid) (some row) db h =
      emit_audit_event-SameTables sort_names s a _ db h
  emit_paired-SameTables none (some rid) row db h = absurd (cc)
  emit_paired-SameTables (some a) none row db h = absurd (cc)
  emit_paired-SameTables (some a) (some rid) none db h = absurd (cc)

  -- A report and an answer behind it.
  pub emit_paired-answer :
      {B : Type 0} (a : Option AuthContext) (rid : Option Uuid) (row : Option Row) (x : B) (db : Db)
      {y : B} {db' : Db}
      → (emit_paired a rid row >> pure x) db ≡ ok (y, db')
      → (y ≡ x) × SameTables db db'
  emit_paired-answer a rid row x db {y} {db'} h =
      let (_, db1, h1, h2) = >>=-eq-ok (emit_paired a rid row) (λ _. pure x) db h in
      let (e, same) = pure-eq-ok h2 in
      (e, subst (SameTables db) (sym same) (emit_paired-SameTables a rid row db h1))
