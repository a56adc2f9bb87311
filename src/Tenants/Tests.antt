-- ===== src/Tenants/Tests.antt =====
-- A run that suspends the sample tenant.
use cortex_cm.Base.{
  codes, length, ◌≤◌, ◌≡◌, refl, sym, ◌∙◌, true, Option, none, some, List, [], ◌∷◌, Text, In,
  In-one, IsKey, here,
}
use cortex_cm.Result.{ok}
use cortex_cm.Models.ModuleAccess.{ModuleCode}
use cortex_cm.Models.Tenants.{Tenant, suspended}
use cortex_cm.Database.Tables.{Db}
use cortex_cm.Database.Session.{session_of, admits}
use cortex_cm.Tenants.Transition.{
  to_suspended, TransitionResult, moved, TenantDetailRow, is_source, transition,
}
use cortex_cm.OrgTree.Order.{path_label}
use cortex_cm.Tenants.Slug.{slug_for_tenant_root, slug_for_tenant_root_sound}
use cortex_cm.Tenants.Lifecycle.{status_consistent, transition-status_consistent}
use cortex_cm.Samples.{acme, acme_tenant, member}

abbrev unnamed : List ModuleCode → List (Text × Text)
unnamed ms = []

abbrev as_is : List Text → List Text
as_is names = names

abbrev before : Db
before = record acme { tenants = acme_tenant ∷ [] }

abbrev suspended_tenant : Tenant
suspended_tenant = record acme_tenant {
  status = suspended;
  updated_by_user_id = some 9;
  suspended_at = some 0;
  suspended_by_user_id = some 9;
}

abbrev after : Db
after = record before { tenants = suspended_tenant ∷ [] }

abbrev answer : Option TenantDetailRow × TransitionResult
answer = (
  some (record { tenant = suspended_tenant; num_stores = 1; num_users_active = 0; modules = [] }),
  moved,
)

suspends :
    transition unnamed as_is (session_of member) 1 to_suspended 9 none none before
    ≡ ok (answer, after)
unfolding transition is_source admits
suspends = refl

one-IsKey : IsKey (λ (t : Tenant). some t.id) before.tenants
one-IsKey x y k i j e f = In-one i ∙ sym (In-one j)

one_consistent : (t : Tenant) → In t before.tenants → status_consistent t ≡ true
unfolding status_consistent
one_consistent t i = rw (In-one i) refl

transition-status_consistent_example : status_consistent suspended_tenant ≡ true
transition-status_consistent_example =
    transition-status_consistent unnamed as_is (session_of member) 1 9 to_suspended none none before
      answer after one-IsKey one_consistent suspends suspended_tenant here

abbrev plain : Text → Text
plain t = t

bob :
    slug_for_tenant_root plain (codes " Bob's  Fuel!") none
    ≡ ok (codes "BOB-S-FUEL", codes "bob_s_fuel")
unfolding slug_for_tenant_root
bob = refl

slug_for_tenant_root_sound_example :
    (path_label (codes "BOB-S-FUEL") ≡ codes "bob_s_fuel")
    × (1 ≤ length (codes "BOB-S-FUEL"))
    × (length (codes "BOB-S-FUEL") ≤ 64)
slug_for_tenant_root_sound_example =
    slug_for_tenant_root_sound plain (codes " Bob's  Fuel!") none (codes "BOB-S-FUEL")
      (codes "bob_s_fuel") bob
