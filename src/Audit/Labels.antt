-- ===== src/Audit/Labels.antt =====
-- The labels of audit rows: the tables and lookups of src/admin_backend/audit/emit.py.
use Prim.Native.String.{String}
use cortex_cm.Base.{
  ◌≡◌, refl, Option, none, some, List, [], ◌∷◌, ◌++◌, Text, codes, text_eq, if◌then◌else◌, is_some,
  ◌==◌,
}
use cortex_cm.Errors.{ClientError, code, http_status}
use cortex_cm.Models.AuditLogs.{
  AuditResultType, success, permission_denied, validation_failed, conflict, integrity_violation,
  internal_error,
}

-- `d.get(key)` of a dictionary of texts.
abbrev pub get : List (String × String) → Text → Option Text
get [] key = none
get ((k, v) ∷ d) key =
    let rest = get d key in if text_eq (codes k) key then some (codes v) else rest

-- `d.get(key, default)`
abbrev get_or : Option Text → Text → Text
get_or none default = default
get_or (some v) default = v

abbrev action_labels : List (String × String)
action_labels =
    ("CREATE", "Created")
    ∷ ("UPDATE", "Edited")
    ∷ ("SUSPEND", "Suspended")
    ∷ ("ACTIVATE", "Activated")
    ∷ ("ACCEPT_INVITATION", "Accepted invitation")
    ∷ ("ENABLE", "Enabled")
    ∷ ("DISABLE", "Disabled")
    ∷ ("OPEN_SOFT", "Soft-opened")
    ∷ ("CLOSE", "Closed")
    ∷ ("DEACTIVATE", "Deactivated")
    ∷ ("SET_STATUS", "Set status")
    ∷ []

abbrev pub label_for_action : Text → Text
label_for_action action = get_or (get action_labels action) action

abbrev pub label_for_result : AuditResultType → Text
label_for_result success = codes "Success"
label_for_result permission_denied = codes "Permission denied"
label_for_result validation_failed = codes "Validation failed"
label_for_result conflict = codes "Conflict"
label_for_result integrity_violation = codes "Integrity violation"
label_for_result internal_error = codes "Internal error"

abbrev resource_type_labels : List (String × String)
resource_type_labels =
    ("TENANT", "Tenant")
    ∷ ("TENANT_USER", "User")
    ∷ ("ROLE", "Role")
    ∷ ("MODULE_ACCESS", "Module")
    ∷ ("STORE", "Store")
    ∷ []

abbrev org_node_subtype_labels : List (String × String)
org_node_subtype_labels =
    ("TENANT", "Tenant root")
    ∷ ("BUSINESS_UNIT", "Business unit")
    ∷ ("HQ", "HQ")
    ∷ ("COUNTRY", "Country")
    ∷ ("REGION", "Region")
    ∷ ("STORE", "Store")
    ∷ ("DEPARTMENT", "Department")
    ∷ []

abbrev org_node_label : Option Text → Text
org_node_label none = codes "Org node"
org_node_label (some subtype) = get_or (get org_node_subtype_labels subtype) (codes "Org node")

abbrev pub label_for_resource_type : Text → Option Text → Text
label_for_resource_type resource_type subtype =
    if text_eq resource_type (codes "ORG_NODE")
    then org_node_label subtype
    else get_or (get resource_type_labels resource_type) resource_type

abbrev conflict_qualifiers : List (String × String)
conflict_qualifiers =
    ("DUPLICATE_TENANT_NAME", "tenant name already exists")
    ∷ ("INVALID_STATE_TRANSITION", "status change not allowed")
    ∷ ("DUPLICATE_TENANT_USER_EMAIL", "email already in use for this tenant")
    ∷ ("ROLE_ASSIGNMENT_CONFLICT", "role assignment conflict, please retry")
    ∷ ("DUPLICATE_ORG_NODE_CODE", "code already in use for this tenant")
    ∷ ("DUPLICATE_STORE_CODE", "store code already in use for this tenant")
    ∷ ("ROLE_ARCHIVED", "role is archived")
    ∷ ("LAST_OVERRIDE_HOLDER", "would remove the last platform admin")
    ∷ ("SUPER_ADMIN_PROTECTED", "SUPER_ADMIN role is protected")
    ∷ []

unfoldable pub qualifier_for_conflict : Option Text → Option Text
qualifier_for_conflict none = none
qualifier_for_conflict (some c) = get conflict_qualifiers c

abbrev blocked : Option Text → Text
blocked none = label_for_result conflict
blocked (some qualifier) = codes "Blocked - " ++ qualifier

unfoldable pub compose_conflict_result_label : Option Text → Text
unfolding qualifier_for_conflict
compose_conflict_result_label c = blocked (qualifier_for_conflict c)

-- A client error has a qualifier in the table exactly if it is answered with a 409.
pub qualifier_for_conflict-409 :
    (e : ClientError)
    → is_some (qualifier_for_conflict (some (codes (code e)))) ≡ (http_status e == 409)
unfolding qualifier_for_conflict code http_status
qualifier_for_conflict-409 ClientError.auth_missing = refl
qualifier_for_conflict-409 _ = refl
