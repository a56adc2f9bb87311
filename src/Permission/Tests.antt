-- ===== src/Permission/Tests.antt =====
-- Runs of the permission gate on the sample tenant.
use cortex_cm.Base.{◌≡◌, refl, ◌↔◌, ◌⊎◌, true, false, Option, none, some, arith, codes, any, Text}
use cortex_cm.Result.{Result, ok, raise}
use cortex_cm.Errors.{
  client_error, tenant_not_found, org_node_not_found, permission_denied, platform_audience_required,
}
use cortex_cm.Models.TenantUsers.{platform}
use cortex_cm.Models.Permissions.{store}
use cortex_cm.Database.Session.{session_of, admits}
use cortex_cm.Auth.Context.{is_valid_context}
use cortex_cm.Auth.Email.{email_matches}
use cortex_cm.OrgTree.Ltree.{is_contained}
use cortex_cm.Permission.Scope.{is_satisfied}
use cortex_cm.Permission.Catalogue.{module_eq, resource_eq, action_eq}
use cortex_cm.Permission.Join.{tenant_join}
use cortex_cm.Permission.Resolve.{
  TenantGrant, is_requested, has_permission, has_permission_tenant, has_permission_tenant_iff,
}
use cortex_cm.Permission.Isolation.{has_permission_own_tenant}
use cortex_cm.Permission.Cascade.{at_scope, has_permission-down}
use cortex_cm.Permission.Grants.{allows, get_permissions_for_user, has_permission-grants}
use cortex_cm.Permission.Anchors.{
  get_tenant_anchor, get_org_node_anchor, get_store_anchor, anchor_of_other_tenant,
}
use cortex_cm.Permission.Gate.{gate, gate_iff, gate_refusals, resolve_anchor, is_wrong_audience}
use cortex_cm.Samples.{acme, member, view_store, view_tenant}

member_is_valid : is_valid_context member ≡ true
unfolding is_valid_context email_matches
member_is_valid = refl

member_may_view :
    (has_permission (session_of member) acme member view_tenant (some (codes "acme.east"))).0 ≡ true
unfolding has_permission has_permission_tenant tenant_join admits is_requested is_satisfied
    is_contained module_eq resource_eq action_eq
member_may_view = refl

member_may_view_tenant :
    (has_permission_tenant (session_of member) acme 7 view_tenant (some (codes "acme.east"))).0
    ≡ true
unfolding has_permission_tenant tenant_join admits is_requested is_satisfied is_contained module_eq
    resource_eq action_eq
member_may_view_tenant = refl

has_permission_own_tenant_example :
    (g : TenantGrant (session_of member) acme 7 view_tenant (some (codes "acme.east"))) × (some 1
      ≡ some g.row.tura.tenant_id)
    × (some 1 ≡ some g.row.on_.tenant_id)
    × (some 1 ≡ some g.row.tma.tenant_id)
has_permission_own_tenant_example =
    has_permission_own_tenant acme member view_tenant (some (codes "acme.east")) member_is_valid
      refl member_may_view

has_permission_tenant_iff_example :
    ((has_permission_tenant (session_of member) acme 7 view_tenant (some (codes "acme.east"))).0
      ≡ true)
    ↔ TenantGrant (session_of member) acme 7 view_tenant (some (codes "acme.east"))
has_permission_tenant_iff_example =
    has_permission_tenant_iff (session_of member) acme 7 view_tenant (some (codes "acme.east"))

below_east : is_contained (codes "acme.east.s_1") (codes "acme.east") ≡ true
unfolding is_contained
below_east = refl

has_permission-down_example :
    (has_permission
      (session_of member)
      acme
      member
      (at_scope view_tenant store)
      (some (codes "acme.east.s_1"))).0
    ≡ true
has_permission-down_example =
    has_permission-down (session_of member) acme member view_tenant (some (codes "acme.east")) store
      (some (codes "acme.east.s_1")) (omega arith) below_east member_may_view

has_permission-grants_example :
    (has_permission (session_of member) acme member view_store (some (codes "acme"))).0
    ≡ any
        (allows view_store (some (codes "acme")))
        (get_permissions_for_user (session_of member) acme member)
has_permission-grants_example =
    has_permission-grants (session_of member) acme member view_store (some (codes "acme"))

anchor_of_other_tenant_example :
    (get_tenant_anchor (session_of member) acme 2 ≡ raise (client_error tenant_not_found))
    × (get_org_node_anchor (session_of member) acme 2 11 ≡ raise (client_error org_node_not_found))
anchor_of_other_tenant_example =
    anchor_of_other_tenant acme member 2 11 member_is_valid refl (λ e. absurd (cc))

corner_anchor : get_store_anchor (session_of member) acme 20 ≡ ok (codes "acme")
unfolding get_store_anchor admits
corner_anchor = refl

gate_iff_example : (gate (session_of member) acme member view_tenant none none ≡ ok tt) ↔ (
    (target : Option Text) × (resolve_anchor none ≡ ok target)
    × (is_wrong_audience none member.user_type ≡ false)
    × ((has_permission (session_of member) acme member view_tenant target).0 ≡ true))
gate_iff_example = gate_iff (session_of member) acme member view_tenant none none

abbrev no_anchor : Option (Result Text)
no_anchor = none

platform_only :
    gate (session_of member) acme member view_tenant (some platform) none
    ≡ raise (client_error platform_audience_required)
unfolding gate
platform_only = refl

gate_refusals_example :
    (no_anchor ≡ some (raise (client_error platform_audience_required)))
    ⊎ ((target : Option Text) × (resolve_anchor none ≡ ok target)
        × (((is_wrong_audience (some platform) member.user_type ≡ true)
              × (client_error platform_audience_required ≡ client_error platform_audience_required))
            ⊎ ((is_wrong_audience (some platform) member.user_type ≡ false)
                × ((has_permission (session_of member) acme member view_tenant target).0 ≡ false)
                × (client_error platform_audience_required ≡ client_error permission_denied))))
gate_refusals_example =
    gate_refusals (session_of member) acme member view_tenant (some platform) none
      (client_error platform_audience_required) platform_only
