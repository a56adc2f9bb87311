-- ===== src/OrgTree/Order.antt =====
-- The order of node types and the labels of paths: `_ORDINAL_MAP`, `_check_cascade_order` and
-- `_path_label` of src/admin_backend/repositories/org_nodes.py.
use cortex_cm.Base.{ℕ, ◌+◌, ◌&&◌, map, Text, leb, ◌==◌, if◌then◌else◌}
use cortex_cm.Errors.{client_error, invalid_parent_node_type}
use cortex_cm.Models.OrgNodes.{OrgNodeType}
use cortex_cm.Database.Txn.{Txn, throw_if}

unfoldable pub ordinal : OrgNodeType → ℕ
ordinal OrgNodeType.tenant = 0
ordinal OrgNodeType.business_unit = 1
ordinal OrgNodeType.hq = 2
ordinal OrgNodeType.country = 3
ordinal OrgNodeType.region = 4
ordinal OrgNodeType.store = 5
ordinal OrgNodeType.department = 6

-- `parent_ord >= child_ord` is refused.
abbrev pub check_cascade_order : OrgNodeType → OrgNodeType → Txn (Unit {0})
check_cascade_order parent child =
    throw_if (leb (ordinal child) (ordinal parent)) (client_error invalid_parent_node_type)

-- `lower` on the ASCII letters: the schemas and the table admit no other letter in a code.
abbrev pub lower_char : ℕ → ℕ
lower_char c = if leb b'A' c && leb c b'Z' then c + 32 else c

abbrev pub lower : Text → Text
lower t = map lower_char t

abbrev pub underscore : ℕ → ℕ
underscore c = if c == b'-' then b'_' else c

-- `code.lower().replace("-", "_")`
unfoldable pub path_label : Text → Text
path_label code = map underscore (lower code)
