-- ===== src/Errors.antt =====
-- The error hierarchy of src/admin_backend/errors.py and the response that an error is turned
-- into. Log-only data (the internal message and the context of an error) is left out.
pub mod Payload
mod Tests
use Prim.Native.String.{String}
use cortex_cm.Base.{ℕ}

-- The subclasses of `ClientError`: the caller's fault.
pub data ClientError : Type 0 where
  auth_missing auth_invalid invalid_tenant_id : ClientError
  tenant_not_found tenant_user_not_found org_node_not_found : ClientError
  store_not_found invalid_sort_key_client permission_denied : ClientError
  platform_audience_required duplicate_tenant_name invalid_tenant_name_for_slug : ClientError
  invalid_state_transition empty_patch self_edit_forbidden : ClientError
  duplicate_tenant_user_email invalid_role_audience invalid_role : ClientError
  invalid_org_node duplicate_role_assignment_in_request role_assignment_conflict : ClientError
  invalid_parent_node_type tenant_root_not_reparentable cycle_detected : ClientError
  duplicate_org_node_code parent_node_not_found duplicate_store_code : ClientError
  org_node_field_not_allowed_for_type module_access_not_found role_archived : ClientError
  invalid_permission audience_scope_mismatch last_override_holder : ClientError
  super_admin_protected audit_event_not_found invalid_cursor : ClientError

-- The subclasses of `ServerError`: the service's fault.
pub data ServerError : Type 0 where
  internal_invariant_violation app_role_privilege auth0_management : ServerError

-- `AdminBackendError`: every error that the service raises on purpose.
pub data AdminBackendError : Type 0 where
  client : ClientError → AdminBackendError
  server : ServerError → AdminBackendError

-- What a handler may raise. `uncaught` is any other Python exception (a `ValueError`, a failed
-- `assert`, an error of the database driver), which the generic handler answers with a 500.
pub data Error : Type 0 where
  admin : AdminBackendError → Error
  uncaught : Error

abbrev pub client_error : ClientError → Error
client_error e = admin (client e)

unfoldable pub http_status : ClientError → ℕ
http_status auth_missing = 401
http_status auth_invalid = 401
http_status invalid_tenant_id = 401
http_status tenant_not_found = 404
http_status tenant_user_not_found = 404
http_status org_node_not_found = 404
http_status store_not_found = 404
http_status invalid_sort_key_client = 400
http_status permission_denied = 403
http_status platform_audience_required = 403
http_status duplicate_tenant_name = 409
http_status invalid_tenant_name_for_slug = 422
http_status invalid_state_transition = 409
http_status empty_patch = 422
http_status self_edit_forbidden = 403
http_status duplicate_tenant_user_email = 409
http_status invalid_role_audience = 422
http_status invalid_role = 422
http_status invalid_org_node = 422
http_status duplicate_role_assignment_in_request = 422
http_status role_assignment_conflict = 409
http_status invalid_parent_node_type = 422
http_status tenant_root_not_reparentable = 422
http_status cycle_detected = 422
http_status duplicate_org_node_code = 409
http_status parent_node_not_found = 404
http_status duplicate_store_code = 409
http_status org_node_field_not_allowed_for_type = 422
http_status module_access_not_found = 404
http_status role_archived = 409
http_status invalid_permission = 422
http_status audience_scope_mismatch = 422
http_status last_override_holder = 409
http_status super_admin_protected = 409
http_status audit_event_not_found = 404
http_status invalid_cursor = 422

unfoldable pub code : ClientError → String
code auth_missing = "AUTH_MISSING"
code auth_invalid = "AUTH_INVALID"
code invalid_tenant_id = "AUTH_INVALID"
code tenant_not_found = "TENANT_NOT_FOUND"
code tenant_user_not_found = "TENANT_USER_NOT_FOUND"
code org_node_not_found = "ORG_NODE_NOT_FOUND"
code store_not_found = "STORE_NOT_FOUND"
code invalid_sort_key_client = "INVALID_SORT_KEY"
code permission_denied = "PERMISSION_DENIED"
code platform_audience_required = "PLATFORM_AUDIENCE_REQUIRED"
code duplicate_tenant_name = "DUPLICATE_TENANT_NAME"
code invalid_tenant_name_for_slug = "INVALID_TENANT_NAME_FOR_SLUG"
code invalid_state_transition = "INVALID_STATE_TRANSITION"
code empty_patch = "EMPTY_PATCH"
code self_edit_forbidden = "SELF_EDIT_FORBIDDEN"
code duplicate_tenant_user_email = "DUPLICATE_TENANT_USER_EMAIL"
code invalid_role_audience = "INVALID_ROLE_AUDIENCE"
code invalid_role = "INVALID_ROLE"
code invalid_org_node = "INVALID_ORG_NODE"
code duplicate_role_assignment_in_request = "DUPLICATE_ROLE_ASSIGNMENT_IN_REQUEST"
code role_assignment_conflict = "ROLE_ASSIGNMENT_CONFLICT"
code invalid_parent_node_type = "INVALID_PARENT_NODE_TYPE"
code tenant_root_not_reparentable = "TENANT_ROOT_NOT_REPARENTABLE"
code cycle_detected = "CYCLE_DETECTED"
code duplicate_org_node_code = "DUPLICATE_ORG_NODE_CODE"
code parent_node_not_found = "PARENT_NODE_NOT_FOUND"
code duplicate_store_code = "DUPLICATE_STORE_CODE"
code org_node_field_not_allowed_for_type = "ORG_NODE_FIELD_NOT_ALLOWED_FOR_TYPE"
code module_access_not_found = "MODULE_ACCESS_NOT_FOUND"
code role_archived = "ROLE_ARCHIVED"
code invalid_permission = "INVALID_PERMISSION_ID"
code audience_scope_mismatch = "AUDIENCE_SCOPE_MISMATCH"
code last_override_holder = "LAST_OVERRIDE_HOLDER"
code super_admin_protected = "SUPER_ADMIN_PROTECTED"
code audit_event_not_found = "AUDIT_EVENT_NOT_FOUND"
code invalid_cursor = "INVALID_CURSOR"

unfoldable pub public_message : ClientError → String
public_message auth_missing = "Authentication required"
public_message auth_invalid = "Authentication invalid"
public_message invalid_tenant_id = "Authentication invalid"
public_message tenant_not_found = "Tenant not found"
public_message tenant_user_not_found = "Tenant user not found"
public_message org_node_not_found = "Org node not found"
public_message store_not_found = "Store not found"
public_message invalid_sort_key_client = "Invalid sort key"
public_message permission_denied = "Permission denied"
public_message platform_audience_required = "This operation requires a platform user."
public_message duplicate_tenant_name = "A tenant with this name already exists."
public_message invalid_tenant_name_for_slug =
    "Tenant name produces an empty identifier; supply a display_code or use a name with alphanumeric characters."
public_message invalid_state_transition = "Tenant cannot transition to the requested state."
public_message empty_patch = "PATCH request must include at least one field."
public_message self_edit_forbidden = "You cannot perform this action on yourself."
public_message duplicate_tenant_user_email = "A user with this email already exists in this tenant."
public_message invalid_role_audience = "One or more roles cannot be assigned to a tenant user."
public_message invalid_role = "One or more role IDs do not exist."
public_message invalid_org_node =
    "One or more org_node IDs do not exist or cannot be used as an anchor."
public_message duplicate_role_assignment_in_request =
    "Duplicate (role_id, org_node_id) entries in roles[]."
public_message role_assignment_conflict =
    "A concurrent edit produced a conflicting role assignment. Retry the request after re-reading the user's current assignments."
public_message invalid_parent_node_type =
    "Parent node's type is not above the child's in the org hierarchy."
public_message tenant_root_not_reparentable = "The tenant root cannot be reparented."
public_message cycle_detected = "Reparenting would create a cycle in the org tree."
public_message duplicate_org_node_code = "An org node with this code already exists in this tenant."
public_message parent_node_not_found = "Parent org node not found."
public_message duplicate_store_code = "A store with this code already exists in this tenant."
public_message org_node_field_not_allowed_for_type =
    "These fields cannot be modified via /org-tree for this node type. Use the resource-specific endpoint instead."
public_message module_access_not_found =
    "Module access not found for the requested tenant and module."
public_message role_archived = "Cannot edit an archived role."
public_message invalid_permission = "One or more permission IDs do not exist."
public_message audience_scope_mismatch =
    "TENANT-audience roles cannot hold GLOBAL-scope permissions."
public_message last_override_holder =
    "Cannot remove the last active holder of platform admin permissions."
public_message super_admin_protected = "SUPER_ADMIN role cannot be edited via the API in v0."
public_message audit_event_not_found = "Audit event not found"
public_message invalid_cursor = "The pagination cursor is malformed or expired."
