-- ===== src/Stores/Tests.antt =====
-- A run that closes the sample store.
use cortex_cm.Base.{◌≡◌, refl, sym, ◌∙◌, Option, none, some, List, [], ◌∷◌, Text, In-one}
use cortex_cm.Result.{ok}
use cortex_cm.Models.Stores.{Store, closed}
use cortex_cm.Models.OrgNodes.{OrgNode, archived}
use cortex_cm.Models.TenantUsers.{tenant}
use cortex_cm.Database.Tables.{Db}
use cortex_cm.Database.Session.{session_of, admits}
use cortex_cm.OrgTree.Nodes.{set_status}
use cortex_cm.Stores.Transition.{is_allowed, StoreDetailRow, transition}
use cortex_cm.Tenants.Transition.{TransitionResult, moved}
use cortex_cm.Models.Checks.{closed_consistent, archived_consistent}
use cortex_cm.Stores.Invariant.{IsConsistent}
use cortex_cm.Stores.Outcome.{transition-IsConsistent, transition-total}
use cortex_cm.Samples.{acme, acme_tenant, member, corner, corner_store}

abbrev as_is : List Text → List Text
as_is names = names

abbrev before : Db
before = record acme { org_nodes = corner ∷ [] }

abbrev closed_store : Store
closed_store = record corner_store {
  status = closed;
  updated_by_user_id = some 7;
  updated_by_user_type = some tenant;
  closed_at = some 0;
  closed_by_user_id = some 7;
  closed_by_user_type = some tenant;
}

abbrev archived_corner : OrgNode
archived_corner = record corner {
  status = archived;
  updated_by_user_id = some 7;
  updated_by_user_type = some tenant;
  archived_at = some 0;
  archived_by_user_id = some 7;
  archived_by_user_type = some tenant;
}

abbrev after : Db
after = record before { stores = closed_store ∷ []; org_nodes = archived_corner ∷ [] }

abbrev answer : Option StoreDetailRow × TransitionResult
answer = (some (record { store = closed_store; tenant_name = none }), moved)

closes : transition as_is (session_of member) 20 closed member none before ≡ ok (answer, after)
unfolding transition is_allowed admits set_status closed_consistent archived_consistent
closes = refl

before-IsConsistent : IsConsistent before.stores before.org_nodes
unfolding closed_consistent archived_consistent
before-IsConsistent = record {
  store_key = λ x y k i j e f. In-one i ∙ sym (In-one j);
  link_key = λ x y k i j e f. In-one i ∙ sym (In-one j);
  node_key = λ x y k i j e f. In-one i ∙ sym (In-one j);
  closures = λ st i. rw (In-one i) refl;
  archives = λ n i. rw (In-one i) refl;
  in_step = λ st n i j h. rw (In-one i, In-one j) refl;
}

transition-IsConsistent_example : IsConsistent after.stores after.org_nodes
transition-IsConsistent_example =
    transition-IsConsistent as_is (session_of member) member closed 20 none before answer after
      before-IsConsistent closes

abbrev with_tenant : Db
with_tenant = record before { tenants = acme_tenant ∷ [] }

transition-total_example :
    (x : Option StoreDetailRow × TransitionResult) × (db' : Db) × (transition as_is
        (session_of member)
        20
        closed
        member
        (some 5)
        with_tenant
      ≡ ok (x, db'))
transition-total_example =
    transition-total as_is (session_of member) member closed 20 (some 5) with_tenant
      before-IsConsistent.store_key before-IsConsistent.node_key before-IsConsistent.closures
      before-IsConsistent.archives (λ st i. rw (In-one i) refl)
