-- ===== src/Users/Validate.antt =====
-- The checks before a write, and the names in its audit row: the private helpers of
-- src/admin_backend/repositories/tenant_users.py.
use Prim.Native.String.{String}
use cortex_cm.Base.{
  Bool, true, false, not, ◌&&◌, Option, none, some, List, [], ◌∷◌, map, Text, codes, text_eq, any,
  find, ◌==◌,
}
use cortex_cm.Errors.{
  client_error, invalid_role, invalid_role_audience, invalid_org_node, duplicate_tenant_user_email,
}
use cortex_cm.Models.Columns.{Uuid, Json, id, arr, Items, nil, cons}
use cortex_cm.Models.Tenants.{Tenant}
use cortex_cm.Models.TenantUsers.{TenantUser}
use cortex_cm.Models.OrgNodes.{OrgNode, OrgNodeStatus}
use cortex_cm.Models.Roles.{Role, RoleStatus, RoleAudience}
use cortex_cm.Database.Tables.{Db}
use cortex_cm.Database.Session.{Session, admits}
use cortex_cm.Database.Txn.{Txn, gets, throw_if, ◌>>=◌, ◌>>◌}
use cortex_cm.Audit.Details.{object, opt_text}
use cortex_cm.Users.Pairs.{RoleAssignmentTuple}

abbrev is_archived_role : RoleStatus → Bool
is_archived_role RoleStatus.archived = true
is_archived_role _ = false

abbrev is_archived_node : OrgNodeStatus → Bool
is_archived_node OrgNodeStatus.archived = true
is_archived_node _ = false

abbrev pub is_for_tenants : RoleAudience → Bool
is_for_tenants RoleAudience.tenant = true
is_for_tenants RoleAudience.platform = false

-- `rid in found and found[rid][1] != "ARCHIVED"`
abbrev pub is_live_role : Db → Uuid → Bool
is_live_role db i = any (λ (r : Role). r.id == i && not (is_archived_role r.status)) db.roles

abbrev pub is_tenant_role : Db → Uuid → Bool
is_tenant_role db i = any (λ (r : Role). r.id == i && is_for_tenants r.audience) db.roles

-- The check on archived roles comes first. Without ids there is nothing to find.
abbrev pub validate_roles : List Uuid → Txn (Unit {0})
validate_roles role_ids = do
  unknown ← gets (λ db. any (λ i. not (is_live_role db i)) role_ids)
  throw_if unknown (client_error invalid_role)
  foreign_audience ← gets (λ db. any (λ i. not (is_tenant_role db i)) role_ids)
  throw_if foreign_audience (client_error invalid_role_audience)

abbrev pub is_excluded : Option Uuid → Uuid → Bool
is_excluded none i = false
is_excluded (some e) i = i == e

module _ (s : Session) where
  abbrev pub is_live_node : Uuid → Db → Uuid → Bool
  is_live_node t db i =
      any
        (λ (n : OrgNode).
          admits s n.tenant_id
          && (n.id == i && (n.tenant_id == t && not (is_archived_node n.status))))
        db.org_nodes

  abbrev pub validate_org_nodes : Uuid → List Uuid → Txn (Unit {0})
  validate_org_nodes t org_node_ids = do
    unknown ← gets (λ db. any (λ i. not (is_live_node t db i)) org_node_ids)
    throw_if unknown (client_error invalid_org_node)

  abbrev pub has_email : Uuid → Text → Option Uuid → TenantUser → Bool
  has_email t email exclude u =
      admits s u.tenant_id
      && (u.tenant_id == t && (text_eq u.email email && not (is_excluded exclude u.id)))

  abbrev pub raise_if_email_taken : Uuid → Text → Option Uuid → Txn (Unit {0})
  raise_if_email_taken t email exclude = do
    taken ← gets (λ db. any (has_email t email exclude) db.tenant_users)
    throw_if taken (client_error duplicate_tenant_user_email)

  abbrev pub is_visible_tenant : Uuid → Tenant → Bool
  is_visible_tenant t x = admits s x.id && x.id == t

  abbrev pub tenant_exists : Uuid → Txn Bool
  tenant_exists t = gets (λ db. any (is_visible_tenant t) db.tenants)

  -- `str(name or "<unknown>")`
  abbrev or_unknown : Option Tenant → Text
  or_unknown none = codes "<unknown>"
  or_unknown (some x) = elim x.name [ [] ↦ codes "<unknown>" | c ∷ t ↦ c ∷ t ]

  abbrev pub tenant_name_for : Uuid → Db → Text
  tenant_name_for t db = or_unknown (find (is_visible_tenant t) db.tenants)

  abbrev role_name : Option Role → Option Text
  role_name none = none
  role_name (some r) = some r.name

  abbrev node_name : Option OrgNode → Option Text
  node_name none = none
  node_name (some n) = some n.name

  abbrev label_of : Db → RoleAssignmentTuple → Json
  label_of db a = object (
      ("role_id", id a.role_id)
      ∷ ("role_name", opt_text (role_name (find (λ r. r.id == a.role_id) db.roles)))
      ∷ ("org_node_id", id a.org_node_id)
      ∷ (
        "org_node_name",
        opt_text
            (node_name (find (λ n. admits s n.tenant_id && n.id == a.org_node_id) db.org_nodes)),
      )
      ∷ [])

  abbrev items : List Json → Items
  items [] = nil
  items (j ∷ js) = cons j (items js)

  -- The entry `roles` of an audit payload.
  abbrev pub resolve_role_labels : List RoleAssignmentTuple → Db → List (String × Json)
  resolve_role_labels pairs db = ("roles", arr (items (map (label_of db) pairs))) ∷ []
