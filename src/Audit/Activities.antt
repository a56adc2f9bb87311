-- ===== src/Audit/Activities.antt =====
-- The rows of the audit listing and the statement that selects them: `AuditActivityDetailRow`,
-- `_build_tenant_only_sql` and `_build_union_sql` of src/admin_backend/repositories/audit_logs.py.
use cortex_cm.Base.{
  ℕ, Bool, true, false, ◌&&◌, ◌||◌, Option, none, some, List, [], ◌∷◌, ◌++◌, map, Text, text_eq,
  ltb, leb, ◌==◌, select, take, if◌then◌else◌,
}
use cortex_cm.Models.Columns.{Uuid, Timestamp, Json}
use cortex_cm.Models.TenantUsers.{ActorUserType, platform, tenant}
use cortex_cm.Models.AuditLogs.{
  AuditResultType, success, permission_denied, validation_failed, conflict, integrity_violation,
  internal_error, TenantActivityAuditLog, PlatformActivityAuditLog,
}
use cortex_cm.Database.Session.{Session, admits}
use cortex_cm.Database.Tables.{Db}

-- The `scope` column: the table that a row comes from.
pub data Scope : Type 0 where
  tenant_scope platform_scope : Scope

pub record AuditActivityDetailRow : Type 0 where
  pub id : Uuid
  pub timestamp : Timestamp
  pub tenant_id : Option Uuid
  pub tenant_name : Option Text
  pub actor_user_id : Uuid
  pub actor_user_type : ActorUserType
  pub actor_display_name : Text
  pub actor_organization_name : Text
  pub actor_roles : Text
  pub resource_type : Text
  pub resource_id : Option Uuid
  pub resource_label : Option Text
  pub resource_subtype : Option Text
  pub action : Text
  pub action_label : Text
  pub result_type : AuditResultType
  pub result_label : Text
  pub request_id : Uuid
  pub details : Json
  pub scope : Scope

abbrev pub of_tenant : TenantActivityAuditLog → AuditActivityDetailRow
of_tenant r = record {
  id = r.id;
  timestamp = r.timestamp;
  tenant_id = some r.tenant_id;
  tenant_name = some r.tenant_name;
  actor_user_id = r.actor_user_id;
  actor_user_type = r.actor_user_type;
  actor_display_name = r.actor_display_name;
  actor_organization_name = r.actor_organization_name;
  actor_roles = r.actor_roles;
  resource_type = r.resource_type;
  resource_id = r.resource_id;
  resource_label = r.resource_label;
  resource_subtype = r.resource_subtype;
  action = r.action;
  action_label = r.action_label;
  result_type = r.result_type;
  result_label = r.result_label;
  request_id = r.request_id;
  details = r.details;
  scope = tenant_scope;
}

abbrev pub of_platform : PlatformActivityAuditLog → AuditActivityDetailRow
of_platform r = record {
  id = r.id;
  timestamp = r.timestamp;
  tenant_id = r.tenant_id;
  tenant_name = r.tenant_name;
  actor_user_id = r.actor_user_id;
  actor_user_type = r.actor_user_type;
  actor_display_name = r.actor_display_name;
  actor_organization_name = r.actor_organization_name;
  actor_roles = r.actor_roles;
  resource_type = r.resource_type;
  resource_id = r.resource_id;
  resource_label = r.resource_label;
  resource_subtype = r.resource_subtype;
  action = r.action;
  action_label = r.action_label;
  result_type = r.result_type;
  result_label = r.result_label;
  request_id = r.request_id;
  details = r.details;
  scope = platform_scope;
}

-- The rows of the tenant table that the policy shows, and all rows of the platform table.
unfoldable pub tenant_rows : Session → Db → List AuditActivityDetailRow
tenant_rows s db = map of_tenant (select (λ r. admits s r.tenant_id) db.tenant_activity_audit_logs)

unfoldable pub platform_rows : Db → List AuditActivityDetailRow
platform_rows db = map of_platform db.platform_activity_audit_logs

-- The filters of a call. For a statement, `search` is the pattern made of the term.
pub record Filters : Type 0 where
  pub from_ts : Option Timestamp
  pub to_ts : Option Timestamp
  pub status : Option AuditResultType
  pub tenant_id : Option Uuid
  pub search : Option Text
  pub resource_type : Option Text
  pub actor_user_id : Option Uuid

-- `CAST(:x AS ...) IS NULL OR ...`
abbrev if_given {ℓ} : {A : Type ℓ} → Option A → (A → Bool) → Bool
if_given none test = true
if_given (some a) test = test a

abbrev result_type_eq : AuditResultType → AuditResultType → Bool
result_type_eq success success = true
result_type_eq permission_denied permission_denied = true
result_type_eq validation_failed validation_failed = true
result_type_eq conflict conflict = true
result_type_eq integrity_violation integrity_violation = true
result_type_eq internal_error internal_error = true
result_type_eq _ _ = false

-- A comparison with a null column is not true.
abbrev on_column {ℓ} : {A : Type ℓ} → (A → Bool) → Option A → Bool
on_column test none = false
on_column test (some a) = test a

-- `ilike value pattern` is the database's `value ILIKE pattern`.
module _ (ilike : Text → Text → Bool) where
  abbrev matches_search : AuditActivityDetailRow → Text → Bool
  matches_search r pattern =
      ilike r.actor_display_name pattern
      || ilike r.action_label pattern
      || on_column (λ v. ilike v pattern) r.resource_label
      || on_column (λ v. ilike v pattern) r.tenant_name

  -- `common_where`
  unfoldable pub common_where : Filters → AuditActivityDetailRow → Bool
  common_where q r =
      if_given q.from_ts (λ t. leb t r.timestamp)
      && if_given q.to_ts (λ t. leb r.timestamp t)
      && if_given q.status (result_type_eq r.result_type)
      && if_given q.search (matches_search r)
      && if_given q.resource_type (text_eq r.resource_type)
      && if_given q.actor_user_id (λ u. r.actor_user_id == u)

  -- The WHERE clause of a branch of the union.
  abbrev branch_where : Filters → AuditActivityDetailRow → Bool
  branch_where q r =
      common_where q r && if_given q.tenant_id (λ t. on_column (λ v. v == t) r.tenant_id)

  -- `inner`, the union of the branches that `scope` leaves.
  unfoldable pub merged : Session → Filters → Option Scope → Db → List AuditActivityDetailRow
  merged s q none db =
      select (branch_where q) (tenant_rows s db) ++ select (branch_where q) (platform_rows db)
  merged s q (some tenant_scope) db = select (branch_where q) (tenant_rows s db)
  merged s q (some platform_scope) db = select (branch_where q) (platform_rows db)

-- `(timestamp, id) < (ts, id)` on rows: the row stands later in the listing.
abbrev pub is_after : Timestamp × Uuid → AuditActivityDetailRow → Bool
is_after anchor r = ltb r.timestamp anchor.0 || (r.timestamp == anchor.0 && ltb r.id anchor.1)

abbrev pub key : AuditActivityDetailRow → Timestamp × Uuid
key r = (r.timestamp, r.id)

-- `ORDER BY timestamp DESC, id DESC`
abbrev pub insert :
    AuditActivityDetailRow → List AuditActivityDetailRow → List AuditActivityDetailRow
insert x [] = x ∷ []
insert x (y ∷ ys) = let rest = insert x ys in if is_after (key x) y then x ∷ y ∷ ys else y ∷ rest

abbrev pub order_by : List AuditActivityDetailRow → List AuditActivityDetailRow
order_by [] = []
order_by (x ∷ xs) = insert x (order_by xs)

abbrev pub is_past : Option (Timestamp × Uuid) → AuditActivityDetailRow → Bool
is_past anchor r = if_given anchor (λ a. is_after a r)

-- The two statements, by the audience of the caller.
unfoldable pub fetch :
    (Text → Text → Bool)
    → Session
    → ActorUserType
    → Filters
    → Option Scope
    → Option (Timestamp × Uuid)
    → ℕ
    → Db
    → List AuditActivityDetailRow
fetch ilike s tenant q scope anchor n db =
    take n (order_by (select (λ r. common_where ilike q r && is_past anchor r) (tenant_rows s db)))
fetch ilike s platform q scope anchor n db =
    take n (order_by (select (is_past anchor) (merged ilike s q scope db)))
