-- ===== src/Audit/Keeps.antt =====
-- What `emit_audit_event` of src/admin_backend/audit/emit.py leaves alone: every table but the two
-- of audit rows.
use cortex_cm.Base.{◌≡◌, refl, ◌≤◌, arith, List, Text}
use mathlib.Core.Path.{subst}
use cortex_cm.Result.{ok, raise}
use cortex_cm.Errors.{Error, uncaught}
use cortex_cm.Models.Columns.{Uuid}
use cortex_cm.Models.AuditLogs.{TenantActivityAuditLog, PlatformActivityAuditLog}
use cortex_cm.Auth.Context.{AuthContext}
use cortex_cm.Database.Tables.{Db}
use cortex_cm.Database.Session.{Session}
use cortex_cm.Audit.Emit.{
  Event, AuditRow, in_tenant, in_platform, build_row, add_row, emit_audit_event,
}

-- The tables of data are the same, and the next id has not gone back.
pub record SameTables (db db' : Db) : Type 0 where
  pub tenants : db'.tenants ≡ db.tenants
  pub stores : db'.stores ≡ db.stores
  pub org_nodes : db'.org_nodes ≡ db.org_nodes
  pub tenant_users : db'.tenant_users ≡ db.tenant_users
  pub platform_users : db'.platform_users ≡ db.platform_users
  pub roles : db'.roles ≡ db.roles
  pub role_permissions : db'.role_permissions ≡ db.role_permissions
  pub permissions : db'.permissions ≡ db.permissions
  pub tenant_module_access : db'.tenant_module_access ≡ db.tenant_module_access
  pub platform_assignments : db'.platform_user_role_assignments ≡ db.platform_user_role_assignments
  pub tenant_assignments : db'.tenant_user_role_assignments ≡ db.tenant_user_role_assignments
  pub next_id : db.next_id ≤ db'.next_id

logs-SameTables :
    (db : Db) (ts : List TenantActivityAuditLog) (ps : List PlatformActivityAuditLog) (i : Uuid)
    → db.next_id ≤ i
    → SameTables db (record db {
      tenant_activity_audit_logs = ts;
      platform_activity_audit_logs = ps;
      next_id = i;
    })
logs-SameTables db ts ps i h = record {
  tenants = refl;
  stores = refl;
  org_nodes = refl;
  tenant_users = refl;
  platform_users = refl;
  roles = refl;
  role_permissions = refl;
  permissions = refl;
  tenant_module_access = refl;
  platform_assignments = refl;
  tenant_assignments = refl;
  next_id = h;
}

pub SameTables-refl : (db : Db) → SameTables db db
SameTables-refl db = logs-SameTables db _ _ db.next_id (omega arith)

module _ (sort_names : List Text → List Text) (s : Session) where
  add_row-SameTables : (r : AuditRow) (db : Db) → SameTables db (add_row sort_names s r db)
  add_row-SameTables (in_tenant r) db = logs-SameTables db _ _ _ (omega arith)
  add_row-SameTables (in_platform r) db = logs-SameTables db _ _ _ (omega arith)

  -- An event that is accepted changes no table of data.
  pub emit_audit_event-SameTables :
      (a : AuthContext) (e : Event) (db : Db) {db' : Db}
      → emit_audit_event sort_names s a e db ≡ ok (tt, db')
      → SameTables db db'
  unfolding emit_audit_event
  emit_audit_event-SameTables a e db {db'} h =
      let r : AuditRow = build_row sort_names s a e db in
      let same : add_row sort_names s r db ≡ db' = ground arith in
      subst (SameTables db) same (add_row-SameTables r db)

  -- An event that is not accepted is an error of the database driver.
  pub emit_audit_event-eq-raise :
      (a : AuthContext) (e : Event) (db : Db) {x : Error}
      → emit_audit_event sort_names s a e db ≡ raise x
      → x ≡ uncaught
  unfolding emit_audit_event
  emit_audit_event-eq-raise a e db h = ground arith
