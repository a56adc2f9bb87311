-- ===== src/OrgTree/Rows.antt =====
-- Statements on the rows of `org_nodes`: the private helpers of
-- src/admin_backend/repositories/org_nodes.py and the constraints of its table.
use cortex_cm.Base.{
  ℕ, suc, Bool, false, not, ◌&&◌, ◌||◌, Option, none, some, List, [], ◌∷◌, Text, codes, text_eq,
  leb, ◌==◌, length, all, any, find, update_where,
}
use cortex_cm.Errors.{client_error, duplicate_org_node_code, uncaught}
use cortex_cm.Models.Columns.{Uuid}
use cortex_cm.Models.Tenants.{Tenant}
use cortex_cm.Models.OrgNodes.{OrgNode, OrgNodeType, OrgNodeStatus}
use cortex_cm.Auth.Context.{AuthContext}
use cortex_cm.Database.Tables.{Db}
use cortex_cm.Database.Session.{Session, admits}
use cortex_cm.Database.Txn.{Txn, gets, modify, throw_if, ◌>>=◌, ◌>>◌}
use cortex_cm.OrgTree.Ltree.{labels}
use cortex_cm.OrgTree.Order.{lower}
use cortex_cm.Permission.Anchors.{is_node}

abbrev pub is_alphanumeric : ℕ → Bool
is_alphanumeric c =
    leb b'0' c && leb c b'9' || (leb b'A' c && leb c b'Z' || leb b'a' c && leb c b'z')

abbrev ends_alphanumeric : Text → Bool
ends_alphanumeric [] = false
ends_alphanumeric (c ∷ []) = is_alphanumeric c
ends_alphanumeric (c ∷ d ∷ t) = ends_alphanumeric (d ∷ t)

abbrev starts_alphanumeric : Text → Bool
starts_alphanumeric [] = false
starts_alphanumeric (c ∷ t) = is_alphanumeric c

-- `ck_org_nodes_code_format`: the pattern `^[A-Za-z0-9][A-Za-z0-9-]{0,62}[A-Za-z0-9]$`, or one
-- character.
abbrev pub is_code : Text → Bool
is_code code =
    length code == 1
    || (leb 2 (length code)
        && leb (length code) 64
        && (starts_alphanumeric code
            && ends_alphanumeric code
            && all (λ c. is_alphanumeric c || c == b'-') code))

-- `CAST(path AS ltree)` refuses an empty label and a character that no label holds.
abbrev pub is_ltree : Text → Bool
is_ltree path =
    all (λ l. leb 1 (length l) && all (λ c. is_alphanumeric c || (c == b'_' || c == b'-')) l)
      (labels path)

-- `ck_org_nodes_name_length`
abbrev pub is_name : Text → Bool
is_name name = leb 1 (length name) && leb (length name) 200

-- `uq_org_nodes_tenant_code_lower`, an index over all rows.
unfoldable pub code_taken : Uuid → Text → List OrgNode → Bool
code_taken t code ns = any (λ n. n.tenant_id == t && text_eq (lower n.code) (lower code)) ns

-- The row that the INSERT of `add_node` makes, with the defaults of the table.
abbrev pub new_node : Uuid → OrgNode → Text → OrgNodeType → Text → Text → AuthContext → Db → OrgNode
new_node t parent path type code name a db = record {
  id = db.next_id;
  tenant_id = t;
  parent_id = some parent.id;
  path = path;
  node_type = type;
  name = name;
  code = code;
  status = OrgNodeStatus.active;
  created_at = db.now;
  created_by_user_id = some a.user_id;
  created_by_user_type = some a.user_type;
  updated_at = db.now;
  updated_by_user_id = some a.user_id;
  updated_by_user_type = some a.user_type;
  archived_at = none;
  archived_by_user_id = none;
  archived_by_user_type = none;
}

abbrev pub add_row : OrgNode → Db → Db
add_row n db = record db { org_nodes = n ∷ db.org_nodes; next_id = suc db.next_id }

-- The trigger that stamps `updated_at` on each UPDATE.
abbrev pub stamp : Db → (OrgNode → OrgNode) → OrgNode → OrgNode
stamp db f n = record (f n) { updated_at = db.now }

module _ (s : Session) where
  abbrev pub select_for_update_node : Uuid → Uuid → Txn (Option OrgNode)
  select_for_update_node t id = gets (λ db. find (is_node s t id) db.org_nodes)

  abbrev pub refetch_by_id : Uuid → Uuid → Txn (Option OrgNode)
  refetch_by_id t id = gets (λ db. find (is_node s t id) db.org_nodes)

  abbrev name_of : Option Tenant → Text
  name_of none = codes "<unknown>"
  name_of (some t) = t.name

  abbrev pub lookup_tenant_name : Uuid → Txn Text
  lookup_tenant_name t = gets (λ db. name_of (find (λ x. admits s x.id && x.id == t) db.tenants))

  -- The INSERT of a node below a parent of its tenant, with `_map_code_uniqueness_violation` for its errors: the text of the path is read
  -- first, then the checks of the table, then its index.
  abbrev pub insert_node : (Db → OrgNode) → Txn Uuid
  insert_node make = do
    n ← gets make
    throw_if (not (is_ltree n.path)) uncaught
    throw_if (not (admits s n.tenant_id && (is_code n.code && is_name n.name))) uncaught
    taken ← gets (λ db. code_taken n.tenant_id n.code db.org_nodes)
    throw_if taken (client_error duplicate_org_node_code)
    _ ← modify (add_row n)
    gets (λ db. n.id)

  -- `UPDATE ... WHERE id = :node_id AND tenant_id = :tenant_id`
  abbrev pub update_node : Uuid → Uuid → (Db → OrgNode → OrgNode) → Txn (Unit {0})
  update_node t id f =
      modify (λ db. record db {
        org_nodes = update_where (is_node s t id) (stamp db (f db)) db.org_nodes;
      })
