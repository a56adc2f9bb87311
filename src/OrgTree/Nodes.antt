-- ===== src/OrgTree/Nodes.antt =====
-- `OrgNodesRepo.add_node` and `OrgNodesRepo.set_status` of
-- src/admin_backend/repositories/org_nodes.py.
use Prim.Native.String.{String}
use cortex_cm.Base.{
  Bool, false, not, ◌&&◌, any, Option, none, some, List, [], ◌∷◌, ◌++◌, Text, codes,
}
use cortex_cm.Errors.{client_error, uncaught, parent_node_not_found, org_node_not_found}
use cortex_cm.Models.Columns.{Uuid, Json, id, str}
use cortex_cm.Models.OrgNodes.{OrgNode, OrgNodeType, OrgNodeStatus}
use cortex_cm.Models.Checks.{archived_consistent}
use cortex_cm.Models.AuditLogs.{AuditResultType}
use cortex_cm.Auth.Context.{AuthContext}
use cortex_cm.Database.Tables.{Db}
use cortex_cm.Database.Session.{Session}
use cortex_cm.Database.Txn.{Txn, pure, gets, throw_if, or_throw, ◌>>=◌, ◌>>◌}
use cortex_cm.OrgTree.Order.{check_cascade_order, path_label}
use cortex_cm.OrgTree.Rows.{
  select_for_update_node, refetch_by_id, lookup_tenant_name, insert_node, update_node, new_node,
}
use cortex_cm.Permission.Anchors.{is_node}
use cortex_cm.Audit.Details.{opt_id, build_success_details_for_create}
use cortex_cm.Audit.Emit.{emit_audit_event}

-- `OrgNodeType.value`
abbrev pub type_value : OrgNodeType → Text
type_value OrgNodeType.tenant = codes "TENANT"
type_value OrgNodeType.business_unit = codes "BUSINESS_UNIT"
type_value OrgNodeType.hq = codes "HQ"
type_value OrgNodeType.country = codes "COUNTRY"
type_value OrgNodeType.region = codes "REGION"
type_value OrgNodeType.store = codes "STORE"
type_value OrgNodeType.department = codes "DEPARTMENT"

-- `OrgNodeStatus.value`
abbrev pub status_value : OrgNodeStatus → Text
status_value OrgNodeStatus.active = codes "ACTIVE"
status_value OrgNodeStatus.inactive = codes "INACTIVE"
status_value OrgNodeStatus.archived = codes "ARCHIVED"

-- `f"{parent.path}.{_path_label(code)}"`
abbrev pub child_path : Text → Text → Text
child_path parent_path code = parent_path ++ b'.' ∷ path_label code

abbrev snapshot : OrgNode → OrgNode → List (String × Json)
snapshot row parent =
    ("id", id row.id)
    ∷ ("name", str row.name)
    ∷ ("code", str row.code)
    ∷ ("node_type", str (type_value row.node_type))
    ∷ ("path", str row.path)
    ∷ ("parent_id", opt_id row.parent_id)
    ∷ ("parent_org_node_name", str parent.name)
    ∷ ("status", str (status_value row.status))
    ∷ []

-- `SET status = ..., updated_by_* = ...`
abbrev restamp : OrgNodeStatus → AuthContext → OrgNode → OrgNode
restamp target a n = record n {
  status = target;
  updated_by_user_id = some a.user_id;
  updated_by_user_type = some a.user_type;
}

-- The three forms of the UPDATE, by target and current status: into the archive, out of it, and
-- beside it.
abbrev pub apply_status : OrgNodeStatus → OrgNodeStatus → AuthContext → Db → OrgNode → OrgNode
apply_status OrgNodeStatus.archived current a db n = record (restamp OrgNodeStatus.archived a n) {
  archived_at = some db.now;
  archived_by_user_id = some a.user_id;
  archived_by_user_type = some a.user_type;
}
apply_status target OrgNodeStatus.archived a db n = record (restamp target a n) {
  archived_at = none;
  archived_by_user_id = none;
  archived_by_user_type = none;
}
apply_status target _ a db n = restamp target a n

module _ (sort_names : List Text → List Text) (s : Session) where
  -- `if request_id is not None`
  abbrev pub emit_created : AuthContext → Uuid → OrgNode → OrgNode → Option Uuid → Txn (Unit {0})
  emit_created a t parent row none = pure tt
  emit_created a t parent row (some rid) = do
    tenant_name ← lookup_tenant_name s t
    emit_audit_event sort_names s a (record {
      action = codes "CREATE";
      action_label = none;
      resource_type = codes "ORG_NODE";
      resource_id = some row.id;
      resource_label = some row.name;
      resource_subtype = some (type_value row.node_type);
      result_type = AuditResultType.success;
      result_label = none;
      details = build_success_details_for_create (snapshot row parent);
      tenant_id = some t;
      tenant_name = some tenant_name;
      request_id = rid;
      route_to_platform = false;
    })

  -- The row of the answer is read again.
  abbrev pub respond : Uuid → OrgNode → AuthContext → Option Uuid → Uuid → Txn OrgNode
  respond t parent a rid new_id = do
    fetched ← refetch_by_id s t new_id
    row ← or_throw fetched (client_error org_node_not_found)
    emit_created a t parent row rid
    pure row

  unfoldable pub add_node :
      Uuid → Uuid → OrgNodeType → Text → Text → AuthContext → Option Uuid → Txn OrgNode
  add_node t parent_id type code name a rid = do
    found ← select_for_update_node s t parent_id
    parent ← or_throw found (client_error parent_node_not_found)
    check_cascade_order parent.node_type type
    new_id ← insert_node s (new_node t parent (child_path parent.path code) type code name a)
    respond t parent a rid new_id

module _ (s : Session) where
  -- Some row that the UPDATE of a status writes fails `ck_org_nodes_archived_consistency`; the columns of
  -- the other checks are not written, or both of a pair.
  abbrev pub violates_archived : Uuid → Uuid → (Db → OrgNode → OrgNode) → Db → Bool
  violates_archived t node_id f db =
      any (λ n. is_node s t node_id n && not (archived_consistent (f db n))) db.org_nodes

  abbrev pub update_status : Uuid → Uuid → (Db → OrgNode → OrgNode) → Txn (Unit {0})
  update_status t node_id f = do
    violated ← gets (violates_archived t node_id f)
    throw_if violated uncaught
    update_node s t node_id f

  abbrev set_found : Uuid → OrgNodeStatus → AuthContext → Option OrgNode → Txn (Option OrgNode)
  set_found t target a none = pure none
  set_found t target a (some n) =
      update_status t n.id (apply_status target n.status a) >> refetch_by_id s t n.id

  unfoldable pub set_status : Uuid → Uuid → OrgNodeStatus → AuthContext → Txn (Option OrgNode)
  set_status t node_id target a = do
    found ← select_for_update_node s t node_id
    set_found t target a found
