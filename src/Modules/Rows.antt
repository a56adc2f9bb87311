-- ===== src/Modules/Rows.antt =====
-- Statements on the rows of `tenant_module_access`: the private helpers of
-- src/admin_backend/repositories/modules_access.py, with the constraints of the table from
-- migrations/versions/cd2a02e452ae_step_3_4_5_tenant_module_access.py.
use cortex_cm.Base.{
  suc, Bool, not, ◌&&◌, ◌||◌, Option, none, some, ◌∷◌, Text, codes, ◌==◌, if◌then◌else◌, any, find,
  update_where,
}
use cortex_cm.Errors.{uncaught}
use cortex_cm.Models.Columns.{Uuid}
use cortex_cm.Models.PlatformUsers.{PlatformUser}
use cortex_cm.Models.ModuleAccess.{
  TenantModuleAccess, ModuleCode, pricing_os, perishables_assistant, promotions_assistant,
  goal_console, admin, enabled, disabled,
}
use cortex_cm.Database.Tables.{Db}
use cortex_cm.Database.Session.{Session, admits}
use cortex_cm.Database.Txn.{Txn, pure, gets, or_throw, modify, throw_if, ◌>>=◌, ◌>>◌}
use cortex_cm.Permission.Catalogue.{module_eq}
use cortex_cm.Audit.Emit.{has_tenant}

-- `ModuleCode.value`
abbrev pub module_value : ModuleCode → Text
module_value pricing_os = codes "PRICING_OS"
module_value perishables_assistant = codes "PERISHABLES_ASSISTANT"
module_value promotions_assistant = codes "PROMOTIONS_ASSISTANT"
module_value goal_console = codes "GOAL_CONSOLE"
module_value admin = codes "ADMIN"

-- The pair of `uq_tenant_module_access_tenant_module`.
abbrev pub is_pair_of : Uuid → ModuleCode → TenantModuleAccess → Bool
is_pair_of t m r = r.tenant_id == t && module_eq r.module_code m

abbrev pub is_platform_user : Db → Uuid → Bool
is_platform_user db actor = any (λ (u : PlatformUser). u.id == actor) db.platform_users

-- What the INSERT breaks: the unique pair, or one of the foreign keys.
abbrev pub is_refused : Uuid → ModuleCode → Uuid → Db → Bool
is_refused t m actor db =
    any (is_pair_of t m) db.tenant_module_access
    || not (has_tenant db t && is_platform_user db actor)

-- The row that the INSERT makes, with the defaults of the table.
abbrev pub new_access : Uuid → ModuleCode → Uuid → Db → TenantModuleAccess
new_access t m actor db = record {
  id = db.next_id;
  tenant_id = t;
  module_code = m;
  status = enabled;
  enabled_at = db.now;
  enabled_by_user_id = actor;
  disabled_at = none;
  disabled_by_user_id = none;
  created_at = db.now;
  created_by_user_id = actor;
  updated_at = db.now;
  updated_by_user_id = actor;
}

abbrev pub add_access : TenantModuleAccess → Db → Db
add_access r db = record db {
  tenant_module_access = r ∷ db.tenant_module_access;
  next_id = suc db.next_id;
}

-- The SET clause of `_apply_enable_transition`, and the trigger's `updated_at`.
abbrev pub set_enabled : Uuid → Db → TenantModuleAccess → TenantModuleAccess
set_enabled actor db r = record r {
  status = enabled;
  enabled_at = db.now;
  enabled_by_user_id = actor;
  disabled_at = none;
  disabled_by_user_id = none;
  updated_at = db.now;
  updated_by_user_id = actor;
}

-- The SET clause of `_apply_disable_transition`, and the trigger's `updated_at`.
abbrev pub set_disabled : Uuid → Db → TenantModuleAccess → TenantModuleAccess
set_disabled actor db r = record r {
  status = disabled;
  disabled_at = some db.now;
  disabled_by_user_id = some actor;
  updated_at = db.now;
  updated_by_user_id = actor;
}

module _ (s : Session) where
  abbrev pub is_access : Uuid → ModuleCode → TenantModuleAccess → Bool
  is_access t m r = admits s r.tenant_id && is_pair_of t m r

  abbrev pub has_id : Uuid → TenantModuleAccess → Bool
  has_id i r = admits s r.tenant_id && r.id == i

  abbrev pub select_for_update : Uuid → ModuleCode → Txn (Option TenantModuleAccess)
  select_for_update t m = gets (λ db. find (is_access t m) db.tenant_module_access)

  -- `scalar_one` raises where there is no row.
  abbrev pub refetch : Uuid → Txn TenantModuleAccess
  refetch i = do
    found ← gets (λ db. find (has_id i) db.tenant_module_access)
    or_throw found uncaught

  abbrev insert_row : Uuid → ModuleCode → Uuid → Txn (Option TenantModuleAccess)
  insert_row t m actor = do
    new_id ← gets (λ db. db.next_id)
    _ ← modify (λ db. add_access (new_access t m actor db) db)
    row ← refetch new_id
    pure (some row)

  -- `race` is what other transactions commit before the INSERT takes effect. The policy's refusal
  -- escapes; an `IntegrityError` is the result `none`.
  abbrev pub insert_enabled : (Db → Db) → Uuid → ModuleCode → Uuid → Txn (Option TenantModuleAccess)
  insert_enabled race t m actor = do
    throw_if (not (admits s t)) uncaught
    _ ← modify race
    refused ← gets (is_refused t m actor)
    if refused then pure none else insert_row t m actor

  -- The UPDATE of one row; an actor that is no platform user breaks a foreign key.
  abbrev pub apply_transition :
      (Uuid → Db → TenantModuleAccess → TenantModuleAccess)
      → Uuid
      → TenantModuleAccess
      → Txn TenantModuleAccess
  apply_transition set actor existing = do
    known ← gets (λ db. is_platform_user db actor)
    throw_if (not known) uncaught
    _ ← modify (λ db. record db {
      tenant_module_access =
          update_where (has_id existing.id) (set actor db) db.tenant_module_access;
    })
    refetch existing.id
