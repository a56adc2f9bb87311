-- ===== src/Stores/CreateTests.antt =====
-- A run that creates a store under the sample region.
use cortex_cm.Base.{
  ◌≡◌, ◌<◌, refl, sym, ◌∙◌, ℕ, Bool, true, none, some, List, [], ◌∷◌, Text, codes, arith, In,
  In-one, here, there, IsKey,
}
use cortex_cm.Result.{ok, raise}
use cortex_cm.Errors.{uncaught}
use cortex_cm.Models.Columns.{Decimal}
use cortex_cm.Models.Stores.{Store, StoreStatus, exclusive}
use cortex_cm.Models.OrgNodes.{OrgNode, OrgNodeType, OrgNodeStatus}
use cortex_cm.Models.TenantUsers
use cortex_cm.Database.Tables.{Db}
use cortex_cm.Database.Session.{session_of, admits}
use cortex_cm.OrgTree.Order.{ordinal, path_label}
use cortex_cm.OrgTree.Rows.{code_taken}
use cortex_cm.OrgTree.Nodes.{add_node}
use cortex_cm.Stores.Transition.{StoreDetailRow}
use cortex_cm.Models.Checks.{closed_consistent, archived_consistent}
use cortex_cm.Stores.Create.{NewStore, create}
use cortex_cm.Stores.Growth.{IsLinked, create-IsLinked, create_mirrored}
use cortex_cm.Stores.Codes.{create_bad_code}
use cortex_cm.Samples.{acme, acme_tenant, member, root_node, east, corner, corner_store, node}

abbrev as_is : List Text → List Text
as_is names = names

abbrev anywhere : ℕ → Decimal → Bool
anywhere bound d = true

abbrev kiosk : NewStore
kiosk = record {
  name = codes "Kiosk";
  country = codes "US";
  timezone = codes "UTC";
  currency = codes "USD";
  store_code = codes "S-2";
  tax_treatment = exclusive;
  parent_org_node_id = 11;
  address = none;
  latitude = none;
  longitude = none;
}

abbrev before : Db
before = record acme { tenants = acme_tenant ∷ [] }

abbrev kiosk_node : OrgNode
kiosk_node = record (node 1000 (some 11) OrgNodeType.store (codes "acme.east.s_2") (codes "S-2")) {
  name = codes "Kiosk";
  created_by_user_id = some 7;
  created_by_user_type = some TenantUsers.tenant;
  updated_by_user_id = some 7;
  updated_by_user_type = some TenantUsers.tenant;
}

abbrev kiosk_store : Store
kiosk_store = record corner_store {
  id = 1001;
  org_node_id = some 1000;
  name = codes "Kiosk";
  store_code = some (codes "S-2");
  status = StoreStatus.active;
  created_by_user_id = some 7;
  created_by_user_type = some TenantUsers.tenant;
  updated_by_user_id = some 7;
  updated_by_user_type = some TenantUsers.tenant;
}

abbrev after : Db
after = record before {
  org_nodes = kiosk_node ∷ before.org_nodes;
  stores = kiosk_store ∷ before.stores;
  next_id = 1002;
}

abbrev answer : StoreDetailRow
answer = record { store = kiosk_store; tenant_name = some (codes "Acme") }

creates :
    create as_is anywhere (session_of member) 1 kiosk member none before ≡ ok (some answer, after)
unfolding create add_node admits ordinal path_label code_taken
creates = refl

create_mirrored_example :
    (n : OrgNode) × (st : Store) × (after.org_nodes ≡ n ∷ before.org_nodes)
    × (after.stores ≡ st ∷ before.stores)
    × (st.org_node_id ≡ some n.id)
    × (st.tenant_id ≡ 1)
    × (n.tenant_id ≡ 1)
    × (st.name ≡ n.name)
    × (st.store_code ≡ some n.code)
    × (n.parent_id ≡ some kiosk.parent_org_node_id)
create_mirrored_example =
    create_mirrored as_is anywhere (session_of member) 1 kiosk member none before answer after
      creates

of_nodes :
    (P : OrgNode → Type 0)
    → P root_node
    → P east
    → P corner
    → (n : OrgNode) → In n (root_node ∷ east ∷ corner ∷ [])
    → P n
of_nodes P r e c n here = r
of_nodes P r e c n (there here) = e
of_nodes P r e c n (there (there here)) = c
of_nodes P r e c n (there (there (there i))) = elim i [ ]

node-IsKey : IsKey (λ (n : OrgNode). some n.id) (root_node ∷ east ∷ corner ∷ [])
node-IsKey x y k i j e f =
    of_nodes (λ x. (y : OrgNode) → In y (root_node ∷ east ∷ corner ∷ []) → x.id ≡ y.id → x ≡ y)
      (of_nodes (λ y. 10 ≡ y.id → root_node ≡ y) (λ q. refl) (λ q. absurd (omega (arith, q)))
        (λ q. absurd (omega (arith, q))))
      (of_nodes (λ y. 11 ≡ y.id → east ≡ y) (λ q. absurd (omega (arith, q))) (λ q. refl)
        (λ q. absurd (omega (arith, q))))
      (of_nodes (λ y. 12 ≡ y.id → corner ≡ y) (λ q. absurd (omega (arith, q)))
        (λ q. absurd (omega (arith, q))) (λ q. refl))
      x i y j (ground arith)

before-IsLinked : IsLinked before
unfolding closed_consistent archived_consistent
before-IsLinked = record {
  consistent = record {
    store_key = λ x y k i j e f. In-one i ∙ sym (In-one j);
    link_key = λ x y k i j e f. In-one i ∙ sym (In-one j);
    node_key = node-IsKey;
    closures = λ st i. rw (In-one i) refl;
    archives = of_nodes (λ n. archived_consistent n ≡ true) refl refl refl;
    in_step = λ st n i j paired.
        rw (In-one i) (of_nodes (λ n. n.status ≡ OrgNodeStatus.active) refl refl refl n j);
  };
  store_fresh = λ st i. rw (In-one i) (omega arith);
  link_fresh = λ st k i e. let link : some 12 ≡ some k = rw (In-one i) at e in ground arith;
  node_fresh = of_nodes (λ n. n.id < before.next_id) (omega arith) (omega arith) (omega arith);
}

create-IsLinked_example : IsLinked after
create-IsLinked_example =
    create-IsLinked as_is anywhere (session_of member) 1 kiosk member none before (some answer)
      after before-IsLinked creates

create_bad_code_example :
    create as_is anywhere
      (session_of member)
      1
      (record kiosk { store_code = codes "S_2" })
      member
      none
      before
    ≡ raise uncaught
create_bad_code_example =
    create_bad_code as_is anywhere (session_of member) 1 (record kiosk { store_code = codes "S_2" })
      member none before east (unfold admits in refl) (unfold admits in refl)
      (unfold ordinal in omega arith) (unfold admits in refl) refl
