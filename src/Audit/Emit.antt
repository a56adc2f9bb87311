-- ===== src/Audit/Emit.antt =====
-- `emit_audit_event` of src/admin_backend/audit/emit.py: one audit row in the transaction of the
-- data write. The rows go into two tables, whose constraints are those of
-- migrations/versions/c530346032dd_step_6_16_1_audit_log_schema.py.
use cortex_cm.Base.{
  ◌≡◌, ◌⊎◌, refl, inl, inr, Bool, true, false, ◌&&◌, Option, none, some, List, [], ◌∷◌, ◌++◌, map,
  suc, arith, Text, codes, select, find, any, collect, ◌==◌, if◌then◌else◌, Bool-cases,
  Option-cases,
}
use mathlib.Core.Path.{subst}
use cortex_cm.Result.{ok, raise}
use cortex_cm.Errors.{uncaught}
use cortex_cm.Models.Columns.{Uuid, Json}
use cortex_cm.Models.Tenants.{Tenant}
use cortex_cm.Models.TenantUsers.{platform, tenant}
use cortex_cm.Models.Roles.{Role}
use cortex_cm.Models.Assignments.{PlatformUserRoleAssignment, TenantUserRoleAssignment}
use cortex_cm.Models.AuditLogs.{AuditResultType, TenantActivityAuditLog, PlatformActivityAuditLog}
use cortex_cm.Auth.Context.{AuthContext}
use cortex_cm.Database.Tables.{Db}
use cortex_cm.Database.Session.{Session, admits}
use cortex_cm.Database.Txn.{Txn}
use cortex_cm.Permission.Catalogue.{is_active}
use cortex_cm.Audit.Labels.{label_for_action, label_for_result}

-- What a caller of `emit_audit_event` says of the event.
pub record Event : Type 0 where
  pub action : Text
  pub action_label : Option Text
  pub resource_type : Text
  pub resource_id : Option Uuid
  pub resource_label : Option Text
  pub resource_subtype : Option Text
  pub result_type : AuditResultType
  pub result_label : Option Text
  pub details : Json
  pub tenant_id : Option Uuid
  pub tenant_name : Option Text
  pub request_id : Uuid
  pub route_to_platform : Bool

-- `x or y`: an empty text gives way too.
abbrev or_else : Option Text → Text → Text
or_else none y = y
or_else (some []) y = y
or_else (some (c ∷ t)) y = c ∷ t

abbrev or_dash : Option Text → Text
or_dash none = codes "-"
or_dash (some name) = name

-- `", ".join(names)`
abbrev join_names : List Text → Text
join_names [] = []
join_names (n ∷ []) = n
join_names (n ∷ m ∷ ns) = n ++ codes ", " ++ join_names (m ∷ ns)

abbrev name_roles : List Text → Text
name_roles [] = codes "-"
name_roles (n ∷ ns) = join_names (n ∷ ns)

abbrev role_names : Db → Uuid → List Text
role_names db role = map (λ (r : Role). r.name) (select (λ r. r.id == role) db.roles)

pub data AuditRow : Type 0 where
  in_tenant : TenantActivityAuditLog → AuditRow
  in_platform : PlatformActivityAuditLog → AuditRow

-- Both or neither: the pair constraints.
abbrev is_pair : {A B : Type 0} → Option A → Option B → Bool
is_pair none none = true
is_pair (some a) (some b) = true
is_pair _ _ = false

abbrev pub has_tenant : Db → Uuid → Bool
has_tenant db t = any (λ (x : Tenant). x.id == t) db.tenants

-- The foreign key on `tenants`; a null refers to nothing.
abbrev references_tenant : Db → Option Uuid → Bool
references_tenant db none = true
references_tenant db (some t) = has_tenant db t

-- `sort_names` is the database's ORDER BY on names.
module _ (sort_names : List Text → List Text) (s : Session) where
  abbrev tenant_org_name : Option Uuid → Db → Text
  tenant_org_name none db = codes "-"
  tenant_org_name (some t) db =
      elim (find (λ (x : Tenant). admits s x.id && x.id == t) db.tenants) [
        | none ↦ codes "-"
        | some x ↦ x.name
      ]

  abbrev resolve_actor_organization_name : AuthContext → Db → Text
  resolve_actor_organization_name a db = elim a.user_type [
    | platform ↦ codes "Platform-Ithina"
    | tenant ↦ tenant_org_name a.tenant_id db
  ]

  abbrev platform_role_names : Uuid → Db → List Text
  platform_role_names user db =
      collect (λ (g : PlatformUserRoleAssignment). role_names db g.role_id)
        (select (λ g. g.platform_user_id == user && is_active g.status)
          db.platform_user_role_assignments)

  abbrev tenant_role_names : Uuid → Db → List Text
  tenant_role_names user db =
      collect (λ (g : TenantUserRoleAssignment). role_names db g.role_id)
        (select (λ g. admits s g.tenant_id && (g.tenant_user_id == user && is_active g.status))
          db.tenant_user_role_assignments)

  abbrev resolve_actor_roles : AuthContext → Db → Text
  resolve_actor_roles a db = name_roles (
      sort_names (elim a.user_type [
        | platform ↦ platform_role_names a.user_id db
        | tenant ↦ tenant_role_names a.user_id db
      ]))

  abbrev tenant_row : AuthContext → Event → Uuid → Db → TenantActivityAuditLog
  tenant_row a e t db = record {
    id = db.next_id;
    timestamp = db.now;
    tenant_id = t;
    tenant_name = or_else e.tenant_name [];
    actor_user_id = a.user_id;
    actor_user_type = a.user_type;
    actor_display_name = a.email;
    resource_type = e.resource_type;
    resource_id = e.resource_id;
    resource_label = e.resource_label;
    resource_subtype = e.resource_subtype;
    action = e.action;
    action_label = or_else e.action_label (label_for_action e.action);
    result_type = e.result_type;
    result_label = or_else e.result_label (label_for_result e.result_type);
    actor_organization_name = resolve_actor_organization_name a db;
    actor_roles = resolve_actor_roles a db;
    request_id = e.request_id;
    details = e.details;
  }

  abbrev platform_row : AuthContext → Event → Db → PlatformActivityAuditLog
  platform_row a e db = record {
    id = db.next_id;
    timestamp = db.now;
    tenant_id = e.tenant_id;
    tenant_name = e.tenant_name;
    actor_user_id = a.user_id;
    actor_user_type = a.user_type;
    actor_display_name = a.email;
    resource_type = e.resource_type;
    resource_id = e.resource_id;
    resource_label = e.resource_label;
    resource_subtype = e.resource_subtype;
    action = e.action;
    action_label = or_else e.action_label (label_for_action e.action);
    result_type = e.result_type;
    result_label = or_else e.result_label (label_for_result e.result_type);
    actor_organization_name = resolve_actor_organization_name a db;
    actor_roles = resolve_actor_roles a db;
    request_id = e.request_id;
    details = e.details;
  }

  -- `if route_to_platform or tenant_id is None`
  abbrev pub build_row : AuthContext → Event → Db → AuditRow
  build_row a e db = elim e.tenant_id [
    | none ↦ in_platform (platform_row a e db)
    | some t ↦
        if e.route_to_platform
        then in_platform (platform_row a e db)
        else in_tenant (tenant_row a e t db)
  ]

  -- A row that its table refuses is an error of the database driver.
  abbrev is_accepted : Db → AuditRow → Bool
  is_accepted db (in_tenant r) =
      admits s r.tenant_id
      && (references_tenant db (some r.tenant_id) && is_pair r.resource_id r.resource_label)
  is_accepted db (in_platform r) =
      references_tenant db r.tenant_id
      && (is_pair r.resource_id r.resource_label && is_pair r.tenant_id r.tenant_name)

  abbrev pub add_row : AuditRow → Db → Db
  add_row (in_tenant r) db = record db {
    tenant_activity_audit_logs = r ∷ db.tenant_activity_audit_logs;
    next_id = suc db.next_id;
  }
  add_row (in_platform r) db = record db {
    platform_activity_audit_logs = r ∷ db.platform_activity_audit_logs;
    next_id = suc db.next_id;
  }

  unfoldable pub emit_audit_event : AuthContext → Event → Txn (Unit {0})
  emit_audit_event a e db =
      let r = build_row a e db in if is_accepted db r then ok (tt, add_row r db) else raise uncaught

  -- Emitting an event that is accepted adds one row, by the caller, and nothing else: to the table of
  -- tenant events, under the event's tenant, which the session may write; or to the table of platform
  -- events, if the event has no tenant or says so.
  pub emit_audit_event-routing :
      (a : AuthContext) (e : Event) (db db' : Db)
      → emit_audit_event a e db ≡ ok (tt, db')
      → ((r : TenantActivityAuditLog) × (e.tenant_id ≡ some r.tenant_id)
          × (e.route_to_platform ≡ false)
          × (r.actor_user_id ≡ a.user_id)
          × (admits s r.tenant_id ≡ true)
          × (db' ≡ add_row (in_tenant r) db))
        ⊎ ((r : PlatformActivityAuditLog) × ((e.tenant_id ≡ none) ⊎ (e.route_to_platform ≡ true))
            × (r.tenant_id ≡ e.tenant_id)
            × (r.actor_user_id ≡ a.user_id)
            × (db' ≡ add_row (in_platform r) db))
  unfolding emit_audit_event
  emit_audit_event-routing a e db db' h = elim (Option-cases e.tenant_id) [
    | inl n ↦ inr (platform_row a e db, inl n, refl, refl, ground arith)
    | inr (t, q) ↦ elim (Bool-cases e.route_to_platform) [
      | inl r ↦ inr (platform_row a e db, inr r, refl, refl, ground arith)
      | inr r ↦ inl (tenant_row a e t db, q, r, refl, ground arith, ground arith)
    ]
  ]

  add_row-keeps :
      (r : AuditRow) (db : Db)
      → ((add_row r db).org_nodes ≡ db.org_nodes)
        × ((add_row r db).stores ≡ db.stores)
        × ((add_row r db).tenants ≡ db.tenants)
  add_row-keeps (in_tenant r) db = (refl, refl, refl)
  add_row-keeps (in_platform r) db = (refl, refl, refl)

  -- The tables of the tree and of the stores are as they were.
  pub emit_audit_event-keeps :
      (a : AuthContext) (e : Event) (db : Db) {db' : Db}
      → emit_audit_event a e db ≡ ok (tt, db')
      → (db'.org_nodes ≡ db.org_nodes) × (db'.stores ≡ db.stores) × (db'.tenants ≡ db.tenants)
  unfolding emit_audit_event
  emit_audit_event-keeps a e db {db'} h =
      let same : add_row (build_row a e db) db ≡ db' = ground arith in
      subst
        (λ (d : Db).
          (d.org_nodes ≡ db.org_nodes) × (d.stores ≡ db.stores) × (d.tenants ≡ db.tenants))
        same (add_row-keeps (build_row a e db) db)

  -- An event of a tenant that the session may write and that is in its table is accepted, if its
  -- resource has an id and a label, or neither.
  pub emit_audit_event-total :
      (a : AuthContext) (e : Event) (db : Db) (t : Uuid)
      → e.tenant_id ≡ some t
      → e.route_to_platform ≡ false
      → admits s t ≡ true
      → has_tenant db t ≡ true
      → is_pair e.resource_id e.resource_label ≡ true
      → (db' : Db) × (emit_audit_event a e db ≡ ok (tt, db'))
  unfolding emit_audit_event
  emit_audit_event-total a e db t et er seen known pair =
      (add_row (in_tenant (tenant_row a e t db)) db, rw (et, er, seen, known, pair) refl)
