-- ===== src/Stores/Growth.antt =====
-- The tables of stores and nodes under `StoresRepo.create` of
-- src/admin_backend/repositories/stores.py: the tree, the keys, and each store beside its node.
use cortex_cm.Base.{
  ◌≡◌, refl, sym, ◌∙◌, ap, inl, inr, ◌<◌, suc, ℕ, Bool, true, Option, some, List, ◌∷◌, arith, Text,
  ==_iff, ◌==◌, In, here, In-cons, cons-IsKey, and-split, find_sound,
}
use mathlib.Core.Path.{subst}
use cortex_cm.Result.{ok}
use cortex_cm.Models.Columns.{Uuid, Decimal}
use cortex_cm.Models.Stores.{Store, StoreStatus}
use cortex_cm.Models.OrgNodes.{OrgNode, OrgNodeType}
use cortex_cm.Auth.Context.{AuthContext}
use cortex_cm.Database.Tables.{Db}
use cortex_cm.Database.Session.{Session, admits}
use cortex_cm.Audit.Keeps.{SameTables}
use cortex_cm.OrgTree.Rows.{new_node, add_row}
use cortex_cm.OrgTree.Nodes.{child_path}
use cortex_cm.Permission.Anchors.{is_node}
use cortex_cm.Stores.Transition.{StoreDetailRow, to_org_node_status}
use cortex_cm.Models.Checks.{closed_consistent, archived_consistent}
use cortex_cm.Stores.Invariant.{IsConsistent, is_paired_link}
use cortex_cm.Stores.Create.{NewStore, new_store, add_store, create}
use cortex_cm.Stores.Paired.{create-ok}

-- The two tables are consistent, and the ids that stores have and refer to have been given out.
pub record IsLinked (db : Db) : Type 0 where
  pub consistent : IsConsistent db.stores db.org_nodes
  pub store_fresh : (st : Store) → In st db.stores → st.id < db.next_id
  pub link_fresh :
      (st : Store) (i : Uuid) → In st db.stores → st.org_node_id ≡ some i → i < db.next_id
  pub node_fresh : (n : OrgNode) → In n db.org_nodes → n.id < db.next_id

later-IsLinked : (db db' : Db) → IsLinked db → SameTables db db' → IsLinked db'
later-IsLinked db db' linked same =
    let le = same.next_id in
    record {
      consistent = rw (same.stores, same.org_nodes) linked.consistent;
      store_fresh = λ st i. let lt = linked.store_fresh st (rw same.stores at i) in omega arith;
      link_fresh =
          λ st j i e. let lt = linked.link_fresh st j (rw same.stores at i) e in omega arith;
      node_fresh = λ n i. let lt = linked.node_fresh n (rw same.org_nodes at i) in omega arith;
    }

-- A new node is linked to by no store yet.
node-IsLinked :
    (n : OrgNode) (db : Db)
    → IsLinked db
    → n.id ≡ db.next_id
    → archived_consistent n ≡ true
    → IsLinked (add_row n db)
node-IsLinked n db linked new archived =
    let c = linked.consistent in
    record {
      consistent = record {
        store_key = c.store_key;
        link_key = c.link_key;
        node_key =
            cons-IsKey (λ (m : OrgNode). some m.id) n db.org_nodes
              (λ m k i e f.
                let lt = linked.node_fresh m i in
                let same : some n.id ≡ some m.id = e ∙ sym f in ground arith)
              c.node_key;
        closures = c.closures;
        archives = λ m i.
            In-cons (archived_consistent m ≡ true) n db.org_nodes (λ e. rw e archived)
              (c.archives m) i;
        in_step = λ st m i j paired.
            In-cons (m.status ≡ to_org_node_status st.status) n db.org_nodes
              (λ e.
                let link : st.org_node_id ≡ some n.id = is_paired_link st n (rw e at paired) in
                let lt = linked.link_fresh st n.id i link in absurd (omega (arith, new, lt)))
              (λ j'. c.in_step st m i j' paired) j;
      };
      store_fresh = λ st i. let lt = linked.store_fresh st i in omega arith;
      link_fresh = λ st k i e. let lt = linked.link_fresh st k i e in omega arith;
      node_fresh = λ m i.
          In-cons (m.id < suc db.next_id) n db.org_nodes (λ e. rw (e, new) (omega arith))
            (λ j. let lt = linked.node_fresh m j in omega arith) i;
    }

-- A new store that is linked to a node no other store is linked to.
store-IsLinked :
    (st : Store) (n : OrgNode) (db : Db)
    → IsLinked db
    → In n db.org_nodes
    → st.id ≡ db.next_id
    → st.org_node_id ≡ some n.id
    → n.status ≡ to_org_node_status st.status
    → closed_consistent st ≡ true
    → ((x : Store) → In x db.stores → ¬ (x.org_node_id ≡ some n.id))
    → IsLinked (add_store st db)
store-IsLinked st n db linked there_is new link step closed alone =
    let c = linked.consistent in
    record {
      consistent = record {
        store_key =
            cons-IsKey (λ (x : Store). some x.id) st db.stores
              (λ x k i e f.
                let lt = linked.store_fresh x i in
                let same : some st.id ≡ some x.id = e ∙ sym f in ground arith)
              c.store_key;
        link_key =
            cons-IsKey (λ (x : Store). x.org_node_id) st db.stores
              (λ x k i e f. absurd (alone x i (f ∙ sym e ∙ link))) c.link_key;
        node_key = c.node_key;
        closures = λ x i.
            In-cons (closed_consistent x ≡ true) st db.stores (λ e. rw e closed) (c.closures x) i;
        archives = c.archives;
        in_step = λ x m i j paired.
            In-cons (m.status ≡ to_org_node_status x.status) st db.stores
              (λ e.
                let link' : st.org_node_id ≡ some m.id = is_paired_link st m (rw e at paired) in
                let same_id : some m.id ≡ some n.id = sym link' ∙ link in
                let same : m ≡ n = c.node_key m n n.id j there_is same_id refl in rw (same, e) step)
              (λ i'. c.in_step x m i' j paired) i;
      };
      store_fresh = λ x i.
          In-cons (x.id < suc db.next_id) st db.stores (λ e. rw (e, new) (omega arith))
            (λ j. let lt = linked.store_fresh x j in omega arith) i;
      link_fresh = λ x k i e.
          In-cons (k < suc db.next_id) st db.stores
            (λ q.
              let same : some k ≡ some n.id = sym e ∙ ap (λ (y : Store). y.org_node_id) q ∙ link in
              let lt = linked.node_fresh n there_is in ground arith)
            (λ j. let lt = linked.link_fresh x k j e in omega arith) i;
      node_fresh = λ m i. let lt = linked.node_fresh m i in omega arith;
    }

new_node-archived :
    (t : Uuid) (p : OrgNode) (path code name : Text) (a : AuthContext) (db : Db)
    → archived_consistent (new_node t p path OrgNodeType.store code name a db) ≡ true
unfolding archived_consistent
new_node-archived t p path code name a db = refl

new_store-closed :
    (t : Uuid) (n : OrgNode) (f : NewStore) (a : AuthContext) (db : Db)
    → closed_consistent (new_store t n f a db) ≡ true
unfolding closed_consistent
new_store-closed t n f a db = refl

-- A creation that returns a row keeps the pair of tables consistent: ids and links are keys, the
-- closure and archive columns match the statuses, and every store's status is that of its node, also
-- for the two new rows.
pub create-IsLinked :
    (sort_names : List Text → List Text) (within : ℕ → Decimal → Bool) (s : Session) (t : Uuid)
    (f : NewStore) (a : AuthContext) (rid : Option Uuid) (db : Db) (x : Option StoreDetailRow)
    (db' : Db)
    → IsLinked db
    → create sort_names within s t f a rid db ≡ ok (x, db')
    → IsLinked db'
create-IsLinked sort_names within s t f a rid db x db' linked h =
    elim (create-ok sort_names within s t f a rid db x db' h) [
      | inl (absent, is_x, same) ↦ subst IsLinked (sym same) linked
      | inr (seen, (p, n, between, found, is_n, first, second)) ↦
          let archived : archived_consistent n ≡ true =
            rw is_n
              (new_node-archived t p (child_path p.path f.store_code) f.store_code f.name a db) in
          let new_id : n.id ≡ db.next_id = ap (λ (m : OrgNode). m.id) is_n in
          let with_node : IsLinked between =
            later-IsLinked (add_row n db) between (node-IsLinked n db linked new_id archived)
              first in
          let there_is : In n between.org_nodes = rw first.org_nodes here in
          let step : n.status ≡ to_org_node_status StoreStatus.active =
            ap (λ (m : OrgNode). m.status) is_n in
          let alone : (y : Store) → In y between.stores → ¬ (y.org_node_id ≡ some n.id) = λ y i e.
            let lt = linked.link_fresh y n.id (rw first.stores at i) e in
            omega (arith, new_id, lt) in
          later-IsLinked (add_store (new_store t n f a between) between) db'
            (store-IsLinked (new_store t n f a between) n between with_node there_is refl refl step
              (new_store-closed t n f a between) alone)
            second
    ]

-- A creation that returns a row has written exactly two rows: one node and one store that is linked to
-- it. They have the tenant, the name and the code in common, the node hangs below the parent that the
-- caller names, and no other row of the two tables has changed.
pub create_mirrored :
    (sort_names : List Text → List Text) (within : ℕ → Decimal → Bool) (s : Session) (t : Uuid)
    (f : NewStore) (a : AuthContext) (rid : Option Uuid) (db : Db) (row : StoreDetailRow) (db' : Db)
    → create sort_names within s t f a rid db ≡ ok (some row, db')
    → (n : OrgNode) × (st : Store) × (db'.org_nodes ≡ n ∷ db.org_nodes)
      × (db'.stores ≡ st ∷ db.stores)
      × (st.org_node_id ≡ some n.id)
      × (st.tenant_id ≡ t)
      × (n.tenant_id ≡ t)
      × (st.name ≡ n.name)
      × (st.store_code ≡ some n.code)
      × (n.parent_id ≡ some f.parent_org_node_id)
create_mirrored sort_names within s t f a rid db row db' h =
    elim (create-ok sort_names within s t f a rid db (some row) db' h) [
      | inl (absent, is_x, same) ↦ absurd (cc)
      | inr (seen, (p, n, between, found, is_n, first, second)) ↦
          let named : p.id ≡ f.parent_org_node_id =
            (==_iff p.id f.parent_org_node_id).0
              (and-split (p.tenant_id == t) _
                (and-split (admits s p.tenant_id) _
                  (find_sound (is_node s t f.parent_org_node_id) db.org_nodes found)).1).1 in
          (
            n,
            new_store t n f a between,
            second.org_nodes ∙ first.org_nodes,
            second.stores ∙ ap (λ sts. new_store t n f a between ∷ sts) first.stores,
            refl,
            refl,
            ap (λ (m : OrgNode). m.tenant_id) is_n,
            sym (ap (λ (m : OrgNode). m.name) is_n),
            ap some (sym (ap (λ (m : OrgNode). m.code) is_n)),
            ap (λ (m : OrgNode). m.parent_id) is_n ∙ ap some named,
          )
    ]
