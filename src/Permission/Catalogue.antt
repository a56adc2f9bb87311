-- ===== src/Permission/Catalogue.antt =====
-- Equality tests on the enums of the permission catalogue, by the place of each value.
use cortex_cm.Base.{ℕ, ◌≡◌, Bool, true, false, arith, ◌==◌, ==_refl}
use cortex_cm.Models.Permissions.{
  PermissionResource, pricing_rules, markdowns, expiring_items, waste_log, donation_routing,
  campaigns, users, roles, audit_log, tenants, stores, org_nodes, PermissionAction, view, configure,
  execute, approve, override, audit,
}
use cortex_cm.Models.ModuleAccess.{
  ModuleCode, pricing_os, perishables_assistant, promotions_assistant, goal_console, admin,
  ModuleAccessStatus, enabled, disabled,
}
use cortex_cm.Models.Assignments.{UserRoleAssignmentStatus, active, inactive}

abbrev module_rank : ModuleCode → ℕ
module_rank pricing_os = 0
module_rank perishables_assistant = 1
module_rank promotions_assistant = 2
module_rank goal_console = 3
module_rank admin = 4

abbrev resource_rank : PermissionResource → ℕ
resource_rank pricing_rules = 0
resource_rank markdowns = 1
resource_rank expiring_items = 2
resource_rank waste_log = 3
resource_rank donation_routing = 4
resource_rank campaigns = 5
resource_rank users = 6
resource_rank roles = 7
resource_rank audit_log = 8
resource_rank tenants = 9
resource_rank stores = 10
resource_rank org_nodes = 11

abbrev action_rank : PermissionAction → ℕ
action_rank view = 0
action_rank configure = 1
action_rank execute = 2
action_rank approve = 3
action_rank override = 4
action_rank audit = 5

unfoldable pub module_eq : ModuleCode → ModuleCode → Bool
module_eq a b = module_rank a == module_rank b

unfoldable pub resource_eq : PermissionResource → PermissionResource → Bool
resource_eq a b = resource_rank a == resource_rank b

unfoldable pub action_eq : PermissionAction → PermissionAction → Bool
action_eq a b = action_rank a == action_rank b

abbrev pub is_active : UserRoleAssignmentStatus → Bool
is_active active = true
is_active inactive = false

abbrev pub is_enabled : ModuleAccessStatus → Bool
is_enabled enabled = true
is_enabled disabled = false

pub module_eq_sound : (a b : ModuleCode) → module_eq a b ≡ true → a ≡ b
unfolding module_eq
module_eq_sound a b h = ground arith

pub resource_eq_sound : (a b : PermissionResource) → resource_eq a b ≡ true → a ≡ b
unfolding resource_eq
resource_eq_sound pricing_rules b h = ground arith
resource_eq_sound _ b h = ground arith

pub action_eq_sound : (a b : PermissionAction) → action_eq a b ≡ true → a ≡ b
unfolding action_eq
action_eq_sound a b h = ground arith

pub module_eq_refl : (a : ModuleCode) → module_eq a a ≡ true
unfolding module_eq
module_eq_refl a = ==_refl (module_rank a)
