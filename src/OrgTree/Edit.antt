-- ===== src/OrgTree/Edit.antt =====
-- `OrgNodesRepo.edit_node` of src/admin_backend/repositories/org_nodes.py: renaming a node, giving it
-- another code, and hanging it below another parent, with everything under it.
use Prim.Native.String.{String}
use cortex_cm.Base.{
  Bool, true, false, not, ◌&&◌, Option, none, some, List, [], ◌∷◌, ◌++◌, Text, codes, text_eq, leb,
  length, ◌==◌, if◌then◌else◌, any, find, update_where,
}
use cortex_cm.Errors.{
  client_error, uncaught, org_node_not_found, parent_node_not_found, cycle_detected,
  duplicate_org_node_code,
}
use cortex_cm.Models.Columns.{Uuid, Json, str}
use cortex_cm.Models.OrgNodes.{OrgNode, OrgNodeType}
use cortex_cm.Models.AuditLogs.{AuditResultType}
use cortex_cm.Auth.Context.{AuthContext}
use cortex_cm.Database.Tables.{Db}
use cortex_cm.Database.Session.{Session, admits}
use cortex_cm.Database.Txn.{Txn, pure, throw, gets, or_throw, modify, throw_if, ◌>>=◌, ◌>>◌}
use cortex_cm.OrgTree.Ltree.{labels, is_contained, is_descendant}
use cortex_cm.OrgTree.Order.{check_cascade_order, path_label, lower}
use cortex_cm.OrgTree.Paths.{last_label, parent_prefix, has_dot, repath}
use cortex_cm.OrgTree.Rows.{
  select_for_update_node, refetch_by_id, lookup_tenant_name, update_node, stamp, is_code, is_name,
  is_ltree,
}
use cortex_cm.OrgTree.Nodes.{type_value}
use cortex_cm.Permission.Anchors.{is_node}
use cortex_cm.Audit.Details.{opt_text, opt_id, build_success_details_for_update}
use cortex_cm.Audit.Emit.{emit_audit_event}

-- `COALESCE(:value, column)`
abbrev pub coalesce {ℓ} : {A : Type ℓ} → Option A → A → A
coalesce none x = x
coalesce (some y) x = y

-- What a caller wants changed. `reparent` says that the body sets `parent_id`.
pub record Patch : Type 0 where
  pub name : Option Text
  pub code : Option Text
  pub parent_id : Option Uuid
  pub reparent : Bool

abbrev moved_path : Option OrgNode → Text → Option Text
moved_path none path = none
moved_path (some p) path = some (p.path ++ b'.' ∷ last_label path)

-- The last segment for a new code, over the path that the move has given or over the old one.
abbrev recoded_path : Text → Option Text → Text → Text
recoded_path code (some moved) path = parent_prefix moved ++ b'.' ∷ path_label code
recoded_path code none path =
    if has_dot path then parent_prefix path ++ b'.' ∷ path_label code else path_label code

-- `new_path`
abbrev pub new_path : Option OrgNode → Option Text → Text → Option Text
new_path parent none path = moved_path parent path
new_path parent (some code) path = some (recoded_path code (moved_path parent path) path)

-- The SET clause of the UPDATE of the target.
abbrev pub edit : Patch → Option Text → AuthContext → OrgNode → OrgNode
edit patch path a n = record n {
  name = coalesce patch.name n.name;
  code = coalesce patch.code n.code;
  parent_id = if patch.reparent then patch.parent_id else n.parent_id;
  path = coalesce path n.path;
  updated_by_user_id = some a.user_id;
  updated_by_user_type = some a.user_type;
}

-- `ck_org_nodes_root_parent_consistency`
abbrev root_parent_consistent : OrgNodeType → Option Uuid → Bool
root_parent_consistent OrgNodeType.tenant none = true
root_parent_consistent OrgNodeType.tenant (some p) = false
root_parent_consistent _ none = false
root_parent_consistent _ (some p) = true

-- The checks of the table on an updated row.
abbrev pub is_valid_row : OrgNode → Bool
is_valid_row n =
    is_code n.code && (is_name n.name && root_parent_consistent n.node_type n.parent_id)

-- Another row has the code: `uq_org_nodes_tenant_code_lower`.
abbrev pub code_taken_by_other : OrgNode → List OrgNode → Bool
code_taken_by_other n ns =
    any
      (λ m.
        not (m.id == n.id) && (m.tenant_id == n.tenant_id && text_eq (lower m.code) (lower n.code)))
      ns

abbrev pub is_ltree_or_null : Option Text → Bool
is_ltree_or_null none = true
is_ltree_or_null (some path) = is_ltree path

-- A half of the audit diff.
abbrev pub Diff : Type 0
Diff = List (String × Json)

-- `if value is not None and value != old`
abbrev pub diff_text : String → Option Text → Text → Diff × Diff
diff_text key none old = ([], [])
diff_text key (some new) old =
    if text_eq new old then ([], []) else ((key, str old) ∷ [], (key, str new) ∷ [])

abbrev pub is_same_id : Option Uuid → Option Uuid → Bool
is_same_id none none = true
is_same_id (some i) (some j) = i == j
is_same_id _ _ = false

abbrev pub both : Diff × Diff → Diff × Diff → Diff × Diff
both x y = (x.0 ++ y.0, x.1 ++ y.1)

abbrev name_or_unknown : Option OrgNode → Option Text
name_or_unknown none = some (codes "<unknown>")
name_or_unknown (some p) = some p.name

module _ (sort_names : List Text → List Text) (s : Session) (t : Uuid) where
  abbrev pub check_new_parent : OrgNode → Option Uuid → Txn (Option OrgNode)
  check_new_parent target none = throw uncaught
  check_new_parent target (some parent_id) = do
    throw_if (parent_id == target.id) (client_error cycle_detected)
    found ← select_for_update_node s t parent_id
    parent ← or_throw found (client_error parent_node_not_found)
    throw_if (is_descendant parent.path target.path) (client_error cycle_detected)
    check_cascade_order parent.node_type target.node_type
    pure (some parent)

  -- `if reparent`
  abbrev pub find_new_parent : Bool → OrgNode → Option Uuid → Txn (Option OrgNode)
  find_new_parent false target parent_id = pure none
  find_new_parent true target parent_id = check_new_parent target parent_id

  -- The first UPDATE: the text of the path is read, then the checks of the table, then its index.
  abbrev pub update_target : Patch → Option Text → AuthContext → OrgNode → Txn (Unit {0})
  update_target patch path a target = do
    throw_if (not (is_ltree_or_null path)) uncaught
    throw_if (not (is_valid_row (edit patch path a target))) uncaught
    taken ← gets (λ db. code_taken_by_other (edit patch path a target) db.org_nodes)
    throw_if taken (client_error duplicate_org_node_code)
    update_node s t target.id (λ db. edit patch path a)

  -- `path <@ :old_prefix AND id <> :node_id` in the tenant.
  abbrev pub is_below : OrgNode → OrgNode → Bool
  is_below target n =
      admits s n.tenant_id
      && (n.tenant_id == t && (is_contained n.path target.path && not (n.id == target.id)))

  abbrev pub set_path : Text → Text → AuthContext → Db → OrgNode → OrgNode
  set_path new old a db n =
      stamp db
        (λ m. record m {
          path = repath new old m.path;
          updated_by_user_id = some a.user_id;
          updated_by_user_type = some a.user_type;
        })
        n

  -- `subpath` refuses an offset past the last label.
  abbrev pub is_too_short : OrgNode → OrgNode → Bool
  is_too_short target n =
      is_below target n && leb (length (labels n.path)) (length (labels target.path))

  abbrev pub update_subtree : Text → AuthContext → OrgNode → Txn (Unit {0})
  update_subtree new a target = do
    short ← gets (λ db. any (is_too_short target) db.org_nodes)
    throw_if short uncaught
    modify (λ db. record db {
      org_nodes = update_where (is_below target) (set_path new target.path a db) db.org_nodes;
    })

  -- `if new_path is not None and new_path != target.path`
  abbrev pub rewrite_subtree : Option Text → AuthContext → OrgNode → Txn (Unit {0})
  rewrite_subtree none a target = pure tt
  rewrite_subtree (some new) a target =
      if text_eq new target.path then pure tt else update_subtree new a target

  abbrev pub lookup_parent_name : Option Uuid → Txn (Option Text)
  lookup_parent_name none = pure none
  lookup_parent_name (some p) = gets (λ db. name_or_unknown (find (is_node s t p) db.org_nodes))

  abbrev pub diff_parent_to : Patch → OrgNode → Option OrgNode → Bool → Txn (Diff × Diff)
  diff_parent_to patch target (some parent) true = do
    old ← lookup_parent_name target.parent_id
    pure (
      ("parent_id", opt_id target.parent_id) ∷ ("parent_org_node_name", opt_text old) ∷ [],
      ("parent_id", opt_id patch.parent_id) ∷ ("parent_org_node_name", str parent.name) ∷ [],
    )
  diff_parent_to patch target _ _ = pure ([], [])

  abbrev pub diff_parent : Patch → OrgNode → Option OrgNode → Txn (Diff × Diff)
  diff_parent patch target parent =
      diff_parent_to patch target parent
        (patch.reparent && not (is_same_id patch.parent_id target.parent_id))

  -- `if before_diff`
  abbrev pub emit_diff : AuthContext → Uuid → OrgNode → Diff × Diff → Txn (Unit {0})
  emit_diff a rid row ([], after) = pure tt
  emit_diff a rid row (b ∷ before, after) = do
    tenant_name ← lookup_tenant_name s t
    emit_audit_event sort_names s a (record {
      action = codes "UPDATE";
      action_label = none;
      resource_type = codes "ORG_NODE";
      resource_id = some row.id;
      resource_label = some row.name;
      resource_subtype = some (type_value row.node_type);
      result_type = AuditResultType.success;
      result_label = none;
      details = build_success_details_for_update (b ∷ before) after;
      tenant_id = some t;
      tenant_name = some tenant_name;
      request_id = rid;
      route_to_platform = false;
    })

  -- `if request_id is not None`
  abbrev pub emit_edited :
      Patch → AuthContext → Option Uuid → OrgNode → Option OrgNode → OrgNode → Txn (Unit {0})
  emit_edited patch a none target parent row = pure tt
  emit_edited patch a (some rid) target parent row = do
    parents ← diff_parent patch target parent
    emit_diff a rid row (
        both
          (both (diff_text "name" patch.name target.name) (diff_text "code" patch.code target.code))
          parents)

  -- The row of the answer is read again.
  abbrev pub respond_edited :
      Patch → AuthContext → Option Uuid → OrgNode → Option OrgNode → Txn OrgNode
  respond_edited patch a rid target parent = do
    fetched ← refetch_by_id s t target.id
    row ← or_throw fetched (client_error org_node_not_found)
    emit_edited patch a rid target parent row
    pure row

  abbrev pub write_edit : Patch → AuthContext → Option Uuid → OrgNode → Option OrgNode → Txn OrgNode
  write_edit patch a rid target parent =
      update_target patch (new_path parent patch.code target.path) a target
      >> (rewrite_subtree (new_path parent patch.code target.path) a target
          >> respond_edited patch a rid target parent)

  abbrev pub edit_found : Patch → AuthContext → Option Uuid → OrgNode → Txn OrgNode
  edit_found patch a rid target = do
    parent ← find_new_parent patch.reparent target patch.parent_id
    write_edit patch a rid target parent

  unfoldable pub edit_node : Uuid → Patch → AuthContext → Option Uuid → Txn OrgNode
  edit_node node_id patch a rid = do
    found ← select_for_update_node s t node_id
    target ← or_throw found (client_error org_node_not_found)
    edit_found patch a rid target
