-- ===== src/Users/Tests.antt =====
-- A user is moved from one node to another, suspended, and one who is invited accepts.
use cortex_cm.Base.{
  ℕ, ◌≡◌, refl, sym, ap, ◌∙◌, Bool, true, false, none, some, List, [], ◌∷◌, Text, codes, arith,
  In-one, ◌<◌,
}
use cortex_cm.Result.{ok, raise}
use cortex_cm.Models.Columns.{Uuid}
use cortex_cm.Models.TenantUsers.{TenantUser, TenantUserStatus, ActorUserType}
use cortex_cm.Models.Roles.{Role, RoleAudience, RoleStatus}
use cortex_cm.Models.Assignments.{TenantUserRoleAssignment, UserRoleAssignmentStatus}
use cortex_cm.Database.Tables.{Db}
use cortex_cm.Database.Session.{Session, admits}
use cortex_cm.Tenants.Transition.{to_suspended, moved}
use cortex_cm.Permission.Catalogue.{module_eq, resource_eq, action_eq}
use cortex_cm.Permission.Scope.{is_satisfied, satisfying_scopes}
use cortex_cm.Permission.Join.{tenant_join}
use cortex_cm.Permission.Resolve.{TenantGrant, is_requested, has_permission, has_permission_tenant}
use cortex_cm.OrgTree.Ltree.{is_contained}
use cortex_cm.Samples.{acme, acme_tenant, at_east, member, view_store}
use cortex_cm.Users.Pairs.{RoleAssignmentTuple, contains}
use cortex_cm.Users.Detail.{TenantUserDetailRow, RoleItem}
use cortex_cm.Users.Diff.{pair_of, set_revoked, new_assignment, revoke_each, insert_each}
use cortex_cm.Users.Update.{Fields, set_fields, update}
use cortex_cm.Users.Transition.{set_target, transition}
use cortex_cm.Users.Accept.{activated, already_active, set_accepted, accept_invitation}
use cortex_cm.Users.Reconciled.{IsReconciled}
use cortex_cm.Users.Effect.{IsSameTenant, update-IsReconciled, update-grants}
use cortex_cm.Users.Conflict.{conflict}
use cortex_cm.Users.Alone.{update-ne-conflict}
use cortex_cm.Users.Lifecycle.{has_permission-transition}
use cortex_cm.Users.Accepted.{accept_invitation-again}
use cortex_cm.Users.Invariant.{status_consistent, IsSound}
use cortex_cm.Users.Reachable.{begin, accepting, Reaches-IsSound}

abbrev user : Uuid → TenantUserStatus → TenantUser
user i status = record {
  id = i;
  tenant_id = 1;
  auth0_sub = none;
  email = codes "a@b.co";
  full_name = codes "A";
  status = status;
  invited_at = some 0;
  invitation_accepted_at = none;
  suspended_at = none;
  suspended_by_user_id = none;
  suspended_by_user_type = none;
  created_at = 0;
  created_by_user_id = none;
  created_by_user_type = none;
  updated_at = 0;
  updated_by_user_id = none;
  updated_by_user_type = none;
}

abbrev manager : TenantUser
manager = record (user 7 TenantUserStatus.active) {
  auth0_sub = some (codes "auth0|7");
  invitation_accepted_at = some 1;
}

abbrev clerk : Role
clerk = record {
  id = 100;
  name = codes "Clerk";
  code = codes "CLERK";
  description = none;
  audience = RoleAudience.tenant;
  status = RoleStatus.active;
  is_system = false;
  created_at = 0;
  created_by_user_id = none;
  created_by_user_type = none;
  updated_at = 0;
  updated_by_user_id = none;
  updated_by_user_type = none;
  archived_at = none;
  archived_by_user_id = none;
  archived_by_user_type = none;
}

abbrev before : Db
before = record acme {
  tenants = acme_tenant ∷ [];
  tenant_users = manager ∷ [];
  roles = clerk ∷ [];
  now = 5;
}

abbrev session : Session
session = record { tenant_id = some 1; user_type = ActorUserType.tenant }

abbrev any_email : Text → Bool
any_email t = true

abbrev unsorted : List Text → List Text
unsorted names = names

-- The clerk of the region becomes the clerk of the store.
abbrev at_corner : RoleAssignmentTuple
at_corner = record { role_id = 100; org_node_id = 12 }

abbrev to_corner : Fields
to_corner = record { full_name = none; email = none; roles = some (some (at_corner ∷ [])) }

-- The same pair twice.
abbrev twice : Fields
twice = record { full_name = none; email = none; roles = some (some (at_corner ∷ at_corner ∷ [])) }

abbrev by_owner : ActorUserType
by_owner = ActorUserType.tenant

abbrev after : Db
after = record before {
  tenant_users = set_fields to_corner 8 by_owner before manager ∷ [];
  tenant_user_role_assignments =
      new_assignment 1 7 8 by_owner at_corner before ∷ set_revoked 8 by_owner before at_east ∷ [];
  next_id = 1001;
}

abbrev item : Uuid → UserRoleAssignmentStatus → ℕ → Uuid → Text → RoleItem
item i status granted_at node name = record {
  assignment_id = i;
  role_id = 100;
  role_name = codes "Clerk";
  role_code = codes "CLERK";
  status = status;
  granted_at = granted_at;
  org_node_id = node;
  org_node_name = name;
}

abbrev moved_manager : TenantUserDetailRow
moved_manager = record {
  user = set_fields to_corner 8 by_owner before manager;
  roles =
      item 1000 UserRoleAssignmentStatus.active 5 12 (codes "S-1")
      ∷ item 300 UserRoleAssignmentStatus.inactive 0 11 (codes "EAST")
      ∷ [];
}

updates :
    update any_email unsorted session to_corner 8 by_owner none none 7 before
    ≡ ok (some moved_manager, after)
unfolding update revoke_each insert_each admits
updates = refl

update-IsReconciled_example :
    IsReconciled session 7
      (at_corner ∷ [])
      before.tenant_user_role_assignments
      after.tenant_user_role_assignments
update-IsReconciled_example =
    update-IsReconciled any_email unsorted session to_corner 8 by_owner none none 7 (at_corner ∷ [])
      before refl updates

same_tenant : IsSameTenant before
same_tenant g u at_g at_u is_u =
    ap (λ (x : TenantUserRoleAssignment). x.tenant_id) (In-one at_g)
    ∙ sym (ap (λ (x : TenantUser). x.tenant_id) (In-one at_u))

update-ne-conflict_example :
    ¬ (update any_email unsorted session twice 8 by_owner none none 7 before ≡ raise conflict)
update-ne-conflict_example =
    update-ne-conflict any_email unsorted session twice 8 by_owner none none 7 before same_tenant

lets_through :
    (has_permission_tenant session after 7 view_store (some (codes "acme.east.s_1"))).0 ≡ true
unfolding has_permission_tenant tenant_join admits is_requested is_contained is_satisfied
    satisfying_scopes module_eq resource_eq action_eq
lets_through = refl

update-grants_example :
    (g : TenantGrant session after 7 view_store (some (codes "acme.east.s_1"))) × (contains
        (at_corner ∷ [])
        (pair_of g.row.tura)
      ≡ true)
update-grants_example =
    update-grants any_email unsorted session to_corner 8 by_owner none none 7 (at_corner ∷ [])
      before session view_store (some (codes "acme.east.s_1")) refl same_tenant updates lets_through

abbrev suspended_db : Db
suspended_db = record before {
  tenant_users = set_target to_suspended 8 by_owner before manager ∷ [];
}

suspends :
    transition unsorted session to_suspended 8 by_owner none none 7 before
    ≡ ok (
      (
        some (record {
          user = set_target to_suspended 8 by_owner before manager;
          roles = item 300 UserRoleAssignmentStatus.active 0 11 (codes "EAST") ∷ [];
        }),
        moved,
      ),
      suspended_db,
    )
unfolding transition admits
suspends = refl

has_permission-transition_example :
    has_permission session suspended_db member view_store (some (codes "acme.east.s_1"))
    ≡ has_permission session before member view_store (some (codes "acme.east.s_1"))
has_permission-transition_example =
    has_permission-transition unsorted session to_suspended 8 by_owner none none 7 before session
      member view_store (some (codes "acme.east.s_1")) suspends

abbrev invitee : TenantUser
invitee = user 6 TenantUserStatus.invited

abbrev invited_db : Db
invited_db = record before { tenant_users = invitee ∷ [] }

abbrev accepted_db : Db
accepted_db = record invited_db {
  tenant_users = set_accepted 6 (codes "auth0|6") invited_db invitee ∷ [];
}

abbrev accepted : TenantUserDetailRow
accepted = record { user = set_accepted 6 (codes "auth0|6") invited_db invitee; roles = [] }

accepts :
    accept_invitation unsorted session 6 1 (codes "auth0|6") none none invited_db
    ≡ ok ((some accepted, activated), accepted_db)
unfolding accept_invitation admits
accepts = refl

accept_invitation-again_example :
    accept_invitation unsorted session 6 1 (codes "auth0|9") none none accepted_db
    ≡ ok ((none, already_active), accepted_db)
accept_invitation-again_example =
    accept_invitation-again unsorted session 6 1 (codes "auth0|6") none none invited_db
      (codes "auth0|9") none none (λ x y k i j e f. In-one i ∙ sym (In-one j)) accepts refl

invited_consistent : status_consistent invitee ≡ true
unfolding status_consistent
invited_consistent = refl

below_1000 : 6 < 1000
below_1000 = omega arith

invited-IsSound : IsSound invited_db.tenant_users invited_db.next_id
invited-IsSound = record {
  ids = λ x y k i j e f. In-one i ∙ sym (In-one j);
  below = λ u at. rw (In-one at) below_1000;
  emails = λ x y k i j e f. In-one i ∙ sym (In-one j);
  consistent = λ u at. rw (In-one at) invited_consistent;
}

Reaches-IsSound_example : IsSound accepted_db.tenant_users accepted_db.next_id
Reaches-IsSound_example =
    Reaches-IsSound any_email unsorted invited_db accepted_db invited-IsSound (
      accepting session 6 1 (codes "auth0|6") none none (some accepted, activated) accepted_db begin
        accepts)
