-- ===== src/Stores/Transition.antt =====
-- `StoresRepo.transition` and `StoresRepo.get_by_id` of src/admin_backend/repositories/stores.py.
use cortex_cm.Base.{
  ℕ, Bool, false, not, ◌&&◌, Option, none, some, List, [], ◌∷◌, Text, codes, ◌==◌, if◌then◌else◌,
  any, find, update_where,
}
use cortex_cm.Errors.{uncaught}
use cortex_cm.Models.Columns.{Uuid}
use cortex_cm.Models.Checks.{closed_consistent}
use cortex_cm.Models.Tenants.{Tenant}
use cortex_cm.Models.Stores.{Store, StoreStatus, opening, active, inactive, closed}
use cortex_cm.Models.OrgNodes.{OrgNodeStatus}
use cortex_cm.Models.AuditLogs.{AuditResultType}
use cortex_cm.Auth.Context.{AuthContext}
use cortex_cm.Database.Tables.{Db}
use cortex_cm.Database.Session.{Session, admits}
use cortex_cm.Database.Txn.{Txn, pure, gets, modify, throw_if, ◌>>=◌, ◌>>◌}
use cortex_cm.Tenants.Transition.{TransitionResult, moved, not_found, invalid_state}
use cortex_cm.OrgTree.Nodes.{set_status}
use cortex_cm.Audit.Details.{build_success_details_for_transition}
use cortex_cm.Audit.Emit.{emit_audit_event}

abbrev rank : StoreStatus → ℕ
rank opening = 0
rank active = 1
rank inactive = 2
rank closed = 3

abbrev pub status_eq : StoreStatus → StoreStatus → Bool
status_eq x y = rank x == rank y

abbrev transition_matrix : StoreStatus → List StoreStatus
transition_matrix opening = active ∷ inactive ∷ closed ∷ []
transition_matrix active = inactive ∷ closed ∷ []
transition_matrix inactive = active ∷ closed ∷ []
transition_matrix closed = active ∷ inactive ∷ []

-- `target_status in TRANSITION_MATRIX[current_status]`
unfoldable pub is_allowed : StoreStatus → StoreStatus → Bool
is_allowed current target = any (status_eq target) (transition_matrix current)

-- `STORE_STATUS_TO_ORG_NODE_STATUS`
abbrev pub to_org_node_status : StoreStatus → OrgNodeStatus
to_org_node_status opening = OrgNodeStatus.active
to_org_node_status active = OrgNodeStatus.active
to_org_node_status inactive = OrgNodeStatus.inactive
to_org_node_status closed = OrgNodeStatus.archived

-- `_TRANSITION_ACTION_BY_TARGET`
abbrev transition_action : StoreStatus → Text
transition_action opening = codes "OPEN_SOFT"
transition_action active = codes "ACTIVATE"
transition_action inactive = codes "DEACTIVATE"
transition_action closed = codes "CLOSE"

-- `StoreStatus.value`
abbrev pub status_value : StoreStatus → Text
status_value opening = codes "OPENING"
status_value active = codes "ACTIVE"
status_value inactive = codes "INACTIVE"
status_value closed = codes "CLOSED"

pub record StoreDetailRow : Type 0 where
  pub store : Store
  pub tenant_name : Option Text

-- What all three classes of the UPDATE set.
abbrev restamp : StoreStatus → AuthContext → Db → Store → Store
restamp target a db st = record st {
  status = target;
  updated_at = db.now;
  updated_by_user_id = some a.user_id;
  updated_by_user_type = some a.user_type;
}

-- The UPDATE by target and current status: the closure columns are filled, cleared or left alone.
abbrev pub apply_status : StoreStatus → StoreStatus → AuthContext → Db → Store → Store
apply_status closed current a db st = record (restamp closed a db st) {
  closed_at = some db.now;
  closed_by_user_id = some a.user_id;
  closed_by_user_type = some a.user_type;
}
apply_status target closed a db st = record (restamp target a db st) {
  closed_at = none;
  closed_by_user_id = none;
  closed_by_user_type = none;
}
apply_status target _ a db st = restamp target a db st

abbrev name_of : Option Tenant → Option Text
name_of none = none
name_of (some t) = some t.name

abbrev pub is_store : Session → Uuid → Store → Bool
is_store s id st = admits s st.tenant_id && st.id == id

module _ (s : Session) where
  -- `stores LEFT JOIN tenants`
  abbrev detail : Db → Store → StoreDetailRow
  detail db st = record {
    store = st;
    tenant_name = name_of (find (λ t. admits s t.id && t.id == st.tenant_id) db.tenants);
  }

  abbrev pub detail_of : Db → Option Store → Option StoreDetailRow
  detail_of db none = none
  detail_of db (some st) = some (detail db st)

  abbrev pub get_by_id : Uuid → Txn (Option StoreDetailRow)
  get_by_id store_id = gets (λ db. detail_of db (find (is_store s store_id) db.stores))

  -- Some row that the UPDATE writes fails `ck_stores_closed_consistency`. The other checks of the table
  -- hold of it if they held before: `updated_by_*` are set both, and the columns of the rest are not
  -- written.
  abbrev pub violates_closed : Uuid → (Db → Store → Store) → Db → Bool
  violates_closed store_id f db =
      any (λ st. is_store s store_id st && not (closed_consistent (f db st))) db.stores

  abbrev pub update_store : Uuid → (Db → Store → Store) → Txn (Unit {0})
  update_store store_id f = do
    violated ← gets (violates_closed store_id f)
    throw_if violated uncaught
    modify (λ db. record db { stores = update_where (is_store s store_id) (f db) db.stores })

  abbrev cascade_to : Uuid → StoreStatus → AuthContext → Option Uuid → Txn (Unit {0})
  cascade_to t target a none = pure tt
  cascade_to t target a (some node_id) =
      set_status s t node_id (to_org_node_status target) a >>= λ _. pure tt

  -- The projected status goes to the paired node. What `set_status` returns is not looked at.
  abbrev pub cascade : Store → StoreStatus → AuthContext → Txn (Unit {0})
  cascade current target a = cascade_to current.tenant_id target a current.org_node_id

module _ (sort_names : List Text → List Text) (s : Session) where
  -- `if request_id is not None and result_row is not None`
  abbrev pub emit_moved :
      AuthContext → Store → StoreStatus → Option Uuid → Option StoreDetailRow → Txn (Unit {0})
  emit_moved a current target (some rid) (some row) = emit_audit_event sort_names s a (record {
    action = transition_action target;
    action_label = none;
    resource_type = codes "STORE";
    resource_id = some row.store.id;
    resource_label = some row.store.name;
    resource_subtype = none;
    result_type = AuditResultType.success;
    result_label = none;
    details =
        build_success_details_for_transition (status_value current.status) (status_value target);
    tenant_id = some current.tenant_id;
    tenant_name = row.tenant_name;
    request_id = rid;
    route_to_platform = false;
  })
  emit_moved a current target _ _ = pure tt

  abbrev pub move :
      Uuid
      → StoreStatus
      → AuthContext
      → Option Uuid
      → Store
      → Txn (Option StoreDetailRow × TransitionResult)
  move store_id target a rid current = do
    update_store s store_id (apply_status target current.status a)
    cascade s current target a
    row ← get_by_id s store_id
    emit_moved a current target rid row
    pure (row, moved)

  abbrev pub decide :
      Uuid
      → StoreStatus
      → AuthContext
      → Option Uuid
      → Option Store
      → Txn (Option StoreDetailRow × TransitionResult)
  decide store_id target a rid none = pure (none, not_found)
  decide store_id target a rid (some current) =
      if is_allowed current.status target
      then move store_id target a rid current
      else pure (none, invalid_state)

  unfoldable pub transition :
      Uuid
      → StoreStatus
      → AuthContext
      → Option Uuid
      → Txn (Option StoreDetailRow × TransitionResult)
  transition store_id target a rid = do
    found ← gets (λ db. find (is_store s store_id) db.stores)
    decide store_id target a rid found
