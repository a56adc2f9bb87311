-- ===== src/Modules/Tests.antt =====
-- Runs that enable and disable a module of the sample tenant.
use cortex_cm.Base.{
  ◌≡◌, refl, sym, ◌∙◌, false, Option, none, some, List, [], ◌∷◌, Text, codes, arith, In-one,
}
use cortex_cm.Result.{ok, raise}
use cortex_cm.Errors.{uncaught}
use cortex_cm.Models.TenantUsers.{platform}
use cortex_cm.Models.PlatformUsers.{PlatformUser, PlatformUserStatus}
use cortex_cm.Models.ModuleAccess.{TenantModuleAccess, ModuleCode, pricing_os, disabled}
use cortex_cm.Auth.Email.{email_matches}
use cortex_cm.Auth.Context.{AuthContext, is_valid_context}
use cortex_cm.Database.Tables.{Db}
use cortex_cm.Database.Session.{session_of, admits}
use cortex_cm.Permission.Catalogue.{module_eq}
use cortex_cm.Permission.Resolve.{has_permission}
use cortex_cm.Modules.Access.{TransitionResult, enable, disable}
use cortex_cm.Modules.Invariant.{IsSoundDb, disabled_consistent}
use cortex_cm.Modules.Reachable.{begin, enabling, disabling, reachable-IsSound}
use cortex_cm.Modules.Effect.{enable-again, enable_race, disable-closes}
use cortex_cm.Samples.{acme, acme_tenant, member, entitlement, view_store}

abbrev staff : PlatformUser
staff = record {
  id = 9;
  auth0_sub = none;
  email = codes "ops@b.co";
  full_name = codes "Ops";
  status = PlatformUserStatus.active;
  invited_at = none;
  invitation_accepted_at = none;
  suspended_at = none;
  suspended_by_user_id = none;
  created_at = 0;
  created_by_user_id = none;
  updated_at = 0;
  updated_by_user_id = none;
}

abbrev unlabelled : ModuleCode → Option Text
unlabelled m = none

abbrev as_is : List Text → List Text
as_is names = names

abbrev alone : Db → Db
alone db = db

abbrev operator : AuthContext
operator = record member { user_id = 9; tenant_id = none; user_type = platform }

abbrev before : Db
before = record acme { tenants = acme_tenant ∷ []; platform_users = staff ∷ [] }

abbrev priced : TenantModuleAccess
priced = record entitlement { id = 1000; module_code = pricing_os }

abbrev with_pricing : Db
with_pricing = record before { tenant_module_access = priced ∷ entitlement ∷ []; next_id = 1001 }

enables :
    enable unlabelled as_is (session_of operator) alone 1 pricing_os 9 none none before
    ≡ ok (priced, with_pricing)
unfolding enable admits module_eq
enables = refl

abbrev unpriced : TenantModuleAccess
unpriced = record priced { status = disabled; disabled_at = some 0; disabled_by_user_id = some 9 }

abbrev without_pricing : Db
without_pricing = record with_pricing { tenant_module_access = unpriced ∷ entitlement ∷ [] }

disables :
    disable unlabelled as_is (session_of operator) 1 pricing_os 9 none none with_pricing
    ≡ ok ((some unpriced, TransitionResult.ok), without_pricing)
unfolding disable admits module_eq
disables = refl

abbrev admin_closed : TenantModuleAccess
admin_closed = record entitlement {
  status = disabled;
  disabled_at = some 0;
  disabled_by_user_id = some 9;
}

disables_admin :
    disable unlabelled as_is (session_of operator) 1 ModuleCode.admin 9 none none before
    ≡ ok (
      (some admin_closed, TransitionResult.ok),
      record before { tenant_module_access = admin_closed ∷ [] },
    )
unfolding disable admits module_eq
disables_admin = refl

before-IsSound : IsSoundDb before
unfolding disabled_consistent
before-IsSound = record {
  pair_key = λ x y k i j e f. In-one i ∙ sym (In-one j);
  id_key = λ x y k i j e f. In-one i ∙ sym (In-one j);
  fresh = λ r i. rw (In-one i) (omega arith);
  matched = λ r i. rw (In-one i) refl;
}

with_pricing-IsSound : IsSoundDb with_pricing
with_pricing-IsSound = reachable-IsSound unlabelled as_is before with_pricing before-IsSound (
    enabling (session_of operator) alone 1 pricing_os 9 none none priced with_pricing begin begin
      enables)

reachable-IsSound_example : IsSoundDb without_pricing
reachable-IsSound_example =
    reachable-IsSound unlabelled as_is before without_pricing before-IsSound (
      disabling (session_of operator) 1 pricing_os 9 none none (some unpriced, TransitionResult.ok)
        without_pricing
        (enabling (session_of operator) alone 1 pricing_os 9 none none priced with_pricing begin
          begin enables)
        disables)

enable-again_example :
    enable unlabelled as_is
      (session_of operator)
      alone
      1
      pricing_os
      8
      (some operator)
      (some 5)
      with_pricing
    ≡ ok (priced, with_pricing)
enable-again_example =
    enable-again unlabelled as_is (session_of operator) 1 pricing_os 9 8 none (some operator) none
      (some 5) alone alone before priced with_pricing before-IsSound before-IsSound refl enables

-- Another transaction inserts the same row first.
enable_race_example :
    enable unlabelled as_is
      (session_of operator)
      (λ db. with_pricing)
      1
      pricing_os
      9
      none
      none
      before
    ≡ raise uncaught
enable_race_example =
    enable_race unlabelled as_is (session_of operator) 1 pricing_os 9 none none (λ db. with_pricing)
      before refl (unfold admits module_eq in refl) (unfold admits in refl)
      (unfold module_eq in refl)

disable-closes_example :
    (has_permission
      (session_of member)
      (record before { tenant_module_access = admin_closed ∷ [] })
      member
      view_store
      none).0
    ≡ false
unfolding email_matches is_valid_context
disable-closes_example =
    disable-closes unlabelled as_is (session_of operator) 1 ModuleCode.admin 9 none none before
      admin_closed (record before { tenant_module_access = admin_closed ∷ [] }) member view_store
      none before-IsSound disables_admin refl refl refl refl
