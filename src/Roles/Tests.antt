-- ===== src/Roles/Tests.antt =====
-- An operator takes `ADMIN.ROLES.OVERRIDE.GLOBAL` from one of the two roles that have it.
use cortex_cm.Base.{
  ◌≡◌, ◌↔◌, refl, sym, ap, ◌∙◌, false, Option, In-one, none, some, List, [], ◌∷◌, Text, codes,
  arith, IsKey, In-cons, cons-IsKey,
}
use cortex_cm.Result.{ok, raise}
use cortex_cm.Errors.{
  admin, server, client_error, internal_invariant_violation, last_override_holder,
}
use cortex_cm.Models.Columns.{Uuid}
use cortex_cm.Models.TenantUsers.{ActorUserType}
use cortex_cm.Models.PlatformUsers.{PlatformUser, PlatformUserStatus}
use cortex_cm.Models.ModuleAccess.{ModuleCode}
use cortex_cm.Models.Permissions.{Permission, PermissionResource, PermissionAction, PermissionScope}
use cortex_cm.Models.Roles.{Role, RolePermission, RoleAudience, RoleStatus}
use cortex_cm.Models.Assignments.{PlatformUserRoleAssignment, UserRoleAssignmentStatus}
use cortex_cm.Database.Tables.{Db, empty_db}
use cortex_cm.Database.Session.{Session}
use cortex_cm.Roles.Holders.{count_override_global_active_holders}
use cortex_cm.Roles.Detail.{RoleDetail, LabelledPermission}
use cortex_cm.Roles.Update.{RoleUpdateRequest, diff_of, write, update}
use cortex_cm.Roles.Bootstrap.{IsHeld, CodesAreKeys}
use cortex_cm.Roles.LastHolder.{TakesLast}
use cortex_cm.Roles.Tripwire.{update-tripwire}
use cortex_cm.Roles.Grants.{IsReplaced, update-IsReplaced}
use cortex_cm.Roles.Invariant.{RoleIdsAreKeys, IsCoherent, IsSound, update-IsSound}

abbrev permission : Uuid → PermissionAction → PermissionScope → Text → Permission
permission i action scope code = record {
  id = i;
  module_code = ModuleCode.admin;
  resource = PermissionResource.roles;
  action = action;
  scope = scope;
  code = code;
  description = none;
  created_at = 0;
  updated_at = 0;
}

abbrev override_global : Permission
override_global =
    permission 60 PermissionAction.override PermissionScope.global
      (codes "ADMIN.ROLES.OVERRIDE.GLOBAL")

abbrev view_global : Permission
view_global =
    permission 61 PermissionAction.view PermissionScope.global (codes "ADMIN.ROLES.VIEW.GLOBAL")

abbrev role : Uuid → Text → Role
role i code = record {
  id = i;
  name = code;
  code = code;
  description = none;
  audience = RoleAudience.platform;
  status = RoleStatus.active;
  is_system = false;
  created_at = 0;
  created_by_user_id = none;
  created_by_user_type = none;
  updated_at = 0;
  updated_by_user_id = none;
  updated_by_user_type = none;
  archived_at = none;
  archived_by_user_id = none;
  archived_by_user_type = none;
}

abbrev auditor : Role
auditor = role 51 (codes "AUDITOR")

abbrev grant : Uuid → Uuid → RolePermission
grant r p = record {
  role_id = r;
  permission_id = p;
  created_at = 0;
  created_by_user_id = none;
  created_by_user_type = none;
}

abbrev operator : PlatformUser
operator = record {
  id = 9;
  auth0_sub = none;
  email = codes "ops@b.co";
  full_name = codes "Ops";
  status = PlatformUserStatus.active;
  invited_at = none;
  invitation_accepted_at = none;
  suspended_at = none;
  suspended_by_user_id = none;
  created_at = 0;
  created_by_user_id = none;
  updated_at = 0;
  updated_by_user_id = none;
}

abbrev assignment : PlatformUserRoleAssignment
assignment = record {
  id = 70;
  platform_user_id = 9;
  role_id = 50;
  status = UserRoleAssignmentStatus.active;
  granted_at = 0;
  granted_by_user_id = none;
  granted_by_user_type = none;
  revoked_at = none;
  revoked_by_user_id = none;
  revoked_by_user_type = none;
  updated_at = 0;
}

abbrev before : Db
before = record empty_db {
  platform_users = operator ∷ [];
  roles = role 50 (codes "OPERATOR") ∷ auditor ∷ [];
  permissions = override_global ∷ view_global ∷ [];
  role_permissions = grant 50 60 ∷ grant 51 60 ∷ [];
  platform_user_role_assignments = assignment ∷ [];
  now = 5;
}

abbrev session : Session
session = record { tenant_id = none; user_type = ActorUserType.platform }

abbrev only_view : RoleUpdateRequest
only_view = record { name = none; description = none; permission_ids = some (some (61 ∷ 61 ∷ [])) }

abbrev as_is : List Text → List Text
as_is names = names

abbrev unlabelled : Text → Text → Option Text
unlabelled list_name code = none

abbrev in_order : List Permission → List Permission
in_order ps = ps

abbrev after : Db
after = write only_view 9 ActorUserType.platform auditor (diff_of (61 ∷ []) (60 ∷ [])) before

abbrev shown : Permission → Text → Text → LabelledPermission
shown p action scope = record {
  permission = p;
  module_label = codes "ADMIN";
  resource_label = codes "ROLES";
  action_label = action;
  scope_label = scope;
}

abbrev detail : RoleDetail
detail = record {
  role = record auditor {
    updated_at = 5;
    updated_by_user_id = some 9;
    updated_by_user_type = some ActorUserType.platform;
  };
  user_count = 0;
  permissions = shown view_global (codes "VIEW") (codes "GLOBAL") ∷ [];
  available_permissions = shown override_global (codes "OVERRIDE") (codes "GLOBAL") ∷ [];
}

updated :
    update as_is unlabelled in_order session only_view 9 ActorUserType.platform none none 51 before
    ≡ ok (some detail, after)
unfolding update count_override_global_active_holders
updated = refl

before-IsHeld : IsHeld session before
unfolding count_override_global_active_holders
before-IsHeld = refl

-- Two rows with different keys.
two-IsKey {ℓ κ} :
    {A : Type ℓ} {K : Type κ} (key : A → Option K) (x y : A)
    → ¬ (key x ≡ key y)
    → IsKey key (x ∷ y ∷ [])
two-IsKey key x y apart =
    cons-IsKey key x (y ∷ []) (λ z k i e f. apart (e ∙ sym f ∙ ap key (In-one i)))
      (λ a b k i j e f. In-one i ∙ sym (In-one j))

before-CodesAreKeys : CodesAreKeys before
before-CodesAreKeys =
    two-IsKey (λ (p : Permission). some p.code) override_global view_global (λ e. cc)

before-RoleIdsAreKeys : RoleIdsAreKeys before
before-RoleIdsAreKeys =
    two-IsKey (λ (r : Role). some r.id) (role 50 (codes "OPERATOR")) auditor
      (λ e. let same : ◌≡◌ {A = Uuid} 50 51 = ground arith in absurd (omega arith))

before-IsCoherent : IsCoherent before
before-IsCoherent rp r p at at_r at_p is_r is_p for_tenant is_g =
    In-cons ⊥ (role 50 (codes "OPERATOR")) (auditor ∷ [])
      (λ e. let q = ap (λ (x : Role). x.audience) e in cc)
      (λ i. let q = ap (λ (x : Role). x.audience) (In-one i) in cc) at_r

before-IsSound : IsSound session before
before-IsSound = record {
  role_ids = before-RoleIdsAreKeys;
  codes = before-CodesAreKeys;
  coherent = before-IsCoherent;
  held = before-IsHeld;
}

update-IsSound_example : IsSound session after
update-IsSound_example =
    update-IsSound as_is unlabelled in_order session only_view 9 ActorUserType.platform none none 51
      before updated before-IsSound

update-IsReplaced_example : IsReplaced 51 (61 ∷ []) before after
update-IsReplaced_example =
    update-IsReplaced as_is unlabelled in_order session only_view 9 ActorUserType.platform none none
      51 (some (61 ∷ 61 ∷ [])) before refl updated

-- The operator's own role cannot lose it.
refused :
    update as_is unlabelled in_order session only_view 9 ActorUserType.platform none none 50 before
    ≡ raise (client_error last_override_holder)
unfolding update count_override_global_active_holders
refused = refl

update-tripwire_example :
    ¬ (
      update as_is unlabelled in_order session only_view 9 ActorUserType.platform none none 50
        before
      ≡ raise (admin (server internal_invariant_violation)))
    × ((update as_is unlabelled in_order session only_view 9 ActorUserType.platform none none 50
            before
          ≡ raise (client_error last_override_holder))
        ↔ TakesLast session only_view 9 ActorUserType.platform 50 before)
update-tripwire_example =
    update-tripwire as_is unlabelled in_order session only_view 9 ActorUserType.platform none none
      50 before before-CodesAreKeys before-IsHeld
