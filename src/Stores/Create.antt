-- ===== src/Stores/Create.antt =====
-- `StoresRepo.create` of src/admin_backend/repositories/stores.py: a store and its paired node, in one
-- transaction.
use Prim.Native.String.{String}
use cortex_cm.Base.{
  ℕ, suc, Bool, true, false, not, ◌&&◌, ◌||◌, Option, none, some, List, [], ◌∷◌, Text, codes,
  text_eq, leb, length, all, any, find, ◌==◌, if◌then◌else◌,
}
use cortex_cm.Errors.{
  client_error, uncaught, parent_node_not_found, invalid_parent_node_type, duplicate_store_code,
}
use cortex_cm.Models.Columns.{Uuid, Decimal, Json, id, str, bool}
use cortex_cm.Models.Tenants.{Tenant}
use cortex_cm.Models.Stores.{Store, StoreStatus, TaxTreatment, exclusive, inclusive}
use cortex_cm.Models.OrgNodes.{OrgNode, OrgNodeType}
use cortex_cm.Models.AuditLogs.{AuditResultType}
use cortex_cm.Auth.Context.{AuthContext}
use cortex_cm.Database.Tables.{Db}
use cortex_cm.Database.Session.{Session, admits}
use cortex_cm.Database.Txn.{Txn, pure, gets, or_throw, modify, throw_if, ◌>>=◌, ◌>>◌}
use cortex_cm.OrgTree.Order.{lower}
use cortex_cm.OrgTree.Nodes.{add_node}
use cortex_cm.Permission.Anchors.{is_node}
use cortex_cm.Stores.Transition.{StoreDetailRow, status_value, get_by_id}
use cortex_cm.Stores.Lifecycle.{is_link}
use cortex_cm.Audit.Details.{opt_text, build_success_details_for_create}
use cortex_cm.Audit.Emit.{emit_audit_event}

-- The keyword arguments of `create`.
pub record NewStore : Type 0 where
  pub name : Text
  pub country : Text
  pub timezone : Text
  pub currency : Text
  pub store_code : Text
  pub tax_treatment : TaxTreatment
  pub parent_org_node_id : Uuid
  pub address : Option Text
  pub latitude : Option Decimal
  pub longitude : Option Decimal

-- `TaxTreatment.value`
abbrev tax_value : TaxTreatment → Text
tax_value exclusive = codes "EXCLUSIVE"
tax_value inclusive = codes "INCLUSIVE"

abbrev pub is_store_type : OrgNodeType → Bool
is_store_type OrgNodeType.store = true
is_store_type _ = false

abbrev is_capital : ℕ → Bool
is_capital c = leb b'A' c && leb c b'Z'

abbrev is_letter : ℕ → Bool
is_letter c = is_capital c || leb b'a' c && leb c b'z'

abbrev is_in_range : (ℕ → Decimal → Bool) → ℕ → Option Decimal → Bool
is_in_range within bound none = true
is_in_range within bound (some d) = within bound d

-- The checks of the table on a new row; `within bound d` says that `d` lies between `-bound` and
-- `bound`.
abbrev pub is_valid_store : (ℕ → Decimal → Bool) → Store → Bool
is_valid_store within st =
    leb 1 (length st.name)
    && leb (length st.name) 200
    && (leb 2 (length st.country) && leb (length st.country) 100 && any is_letter st.country)
    && (length st.currency == 3 && all is_capital st.currency)
    && (is_in_range within 90 st.latitude && is_in_range within 180 st.longitude)

-- `lower(store_code) = lower(:store_code)`; a null is equal to nothing.
abbrev is_code_of : Text → Option Text → Bool
is_code_of code none = false
is_code_of code (some c) = text_eq (lower c) (lower code)

abbrev is_excluded : Option Uuid → Uuid → Bool
is_excluded none i = false
is_excluded (some e) i = i == e

-- The row that the INSERT makes, with the defaults of the table.
abbrev pub new_store : Uuid → OrgNode → NewStore → AuthContext → Db → Store
new_store t n f a db = record {
  id = db.next_id;
  tenant_id = t;
  org_node_id = some n.id;
  name = f.name;
  store_code = some f.store_code;
  country = f.country;
  timezone = f.timezone;
  address = f.address;
  latitude = f.latitude;
  longitude = f.longitude;
  currency = f.currency;
  tax_treatment = f.tax_treatment;
  status = StoreStatus.active;
  created_at = db.now;
  created_by_user_id = some a.user_id;
  created_by_user_type = some a.user_type;
  updated_at = db.now;
  updated_by_user_id = some a.user_id;
  updated_by_user_type = some a.user_type;
  closed_at = none;
  closed_by_user_id = none;
  closed_by_user_type = none;
}

abbrev pub add_store : Store → Db → Db
add_store st db = record db { stores = st ∷ db.stores; next_id = suc db.next_id }

abbrev store_snapshot : StoreDetailRow → OrgNode → List (String × Json)
store_snapshot row n =
    ("id", id row.store.id)
    ∷ ("name", str row.store.name)
    ∷ ("store_code", opt_text row.store.store_code)
    ∷ ("country", str row.store.country)
    ∷ ("timezone", str row.store.timezone)
    ∷ ("currency", str row.store.currency)
    ∷ ("tax_treatment", str (tax_value row.store.tax_treatment))
    ∷ ("status", str (status_value row.store.status))
    ∷ ("org_node_id", id n.id)
    ∷ ("org_node_name", str n.name)
    ∷ ("org_node_created_atomically", bool true)
    ∷ []

module _ (s : Session) (t : Uuid) where
  abbrev pub tenant_exists : Db → Bool
  tenant_exists db = any (λ (x : Tenant). admits s x.id && x.id == t) db.tenants

  abbrev pub check_parent_node_for_store : Uuid → Txn (Unit {0})
  check_parent_node_for_store parent_id = do
    found ← gets (λ db. find (is_node s t parent_id) db.org_nodes)
    parent ← or_throw found (client_error parent_node_not_found)
    throw_if (is_store_type parent.node_type) (client_error invalid_parent_node_type)

  -- A store of the tenant, other than the excluded one, that has the code.
  abbrev pub has_code : Text → Option Uuid → Store → Bool
  has_code code exclude st =
      admits s st.tenant_id
      && (st.tenant_id == t && (is_code_of code st.store_code && not (is_excluded exclude st.id)))

  abbrev pub raise_if_store_code_taken : Text → Option Uuid → Txn (Unit {0})
  raise_if_store_code_taken code exclude = do
    taken ← gets (λ db. any (has_code code exclude) db.stores)
    throw_if taken (client_error duplicate_store_code)

  -- The INSERT under the policy, the checks and the two indexes of the table, `uq_stores_org_node_id`
  -- and `uq_stores_tenant_store_code_lower`. The foreign keys hold:
  -- the tenant has been seen and the node is new.
  abbrev pub insert_store : (ℕ → Decimal → Bool) → NewStore → AuthContext → OrgNode → Txn Uuid
  insert_store within f a n = do
    st ← gets (new_store t n f a)
    throw_if (not (admits s st.tenant_id && is_valid_store within st)) uncaught
    clash ←
        gets (λ db. any (λ r. is_link r.org_node_id n.id || has_code f.store_code none r) db.stores)
    throw_if clash uncaught
    _ ← modify (add_store st)
    gets (λ db. st.id)

module _ (sort_names : List Text → List Text) (within : ℕ → Decimal → Bool) (s : Session)
    (t : Uuid) where
  -- `if request_id is not None`
  abbrev pub emit_store_created :
      AuthContext → OrgNode → StoreDetailRow → Option Uuid → Txn (Unit {0})
  emit_store_created a n row none = pure tt
  emit_store_created a n row (some rid) = emit_audit_event sort_names s a (record {
    action = codes "CREATE";
    action_label = none;
    resource_type = codes "STORE";
    resource_id = some row.store.id;
    resource_label = some row.store.name;
    resource_subtype = none;
    result_type = AuditResultType.success;
    result_label = none;
    details = build_success_details_for_create (store_snapshot row n);
    tenant_id = some t;
    tenant_name = row.tenant_name;
    request_id = rid;
    route_to_platform = false;
  })

  -- The row of the answer is read again; a missing one fails the assertion.
  abbrev pub respond_created :
      AuthContext → Option Uuid → OrgNode → Uuid → Txn (Option StoreDetailRow)
  respond_created a rid n new_id = do
    fetched ← get_by_id s new_id
    row ← or_throw fetched uncaught
    emit_store_created a n row rid
    pure (some row)

  -- The node first, then the store that is linked to it.
  abbrev pub create_pair : NewStore → AuthContext → Option Uuid → Txn (Option StoreDetailRow)
  create_pair f a rid = do
    n ← add_node sort_names s t f.parent_org_node_id OrgNodeType.store f.store_code f.name a none
    new_id ← insert_store s t within f a n
    respond_created a rid n new_id

  abbrev pub create_visible : NewStore → AuthContext → Option Uuid → Txn (Option StoreDetailRow)
  create_visible f a rid =
      check_parent_node_for_store s t f.parent_org_node_id
      >> (raise_if_store_code_taken s t f.store_code none >> create_pair f a rid)

  unfoldable pub create : NewStore → AuthContext → Option Uuid → Txn (Option StoreDetailRow)
  create f a rid = do
    exists ← gets (tenant_exists s t)
    if exists then create_visible f a rid else pure none
