-- ===== src/Stores/Lifecycle.antt =====
-- What `StoresRepo.transition` (src/admin_backend/repositories/stores.py) does to the rows of
-- stores and of their paired nodes.
use cortex_cm.Base.{
  ◌≡◌, refl, ◌⊎◌, inl, inr, Bool, true, false, not, ◌&&◌, Option, none, some, List, arith, find,
  update_where, Option-cases, ◌==◌, ==_iff, ap, In, IsKey, find-In, any-not_passed,
}
use cortex_cm.Result.{ok}
use cortex_cm.Models.Columns.{Uuid}
use cortex_cm.Models.Checks.{closed_consistent, archived_consistent}
use cortex_cm.Models.Stores.{Store, StoreStatus, opening, active, inactive, closed}
use cortex_cm.Models.OrgNodes.{OrgNode, OrgNodeStatus, archived}
use cortex_cm.Auth.Context.{AuthContext}
use cortex_cm.Database.Tables.{Db}
use cortex_cm.Database.Session.{Session}
use cortex_cm.OrgTree.Nodes.{set_status, violates_archived, apply_status as node_status}
use cortex_cm.OrgTree.Rows.{stamp}
use cortex_cm.Permission.Anchors.{is_node}
use cortex_cm.Stores.Transition.{status_eq, is_allowed, apply_status}

-- The matrix allows every move but one to the same status and one to `OPENING`.
pub is_allowed_iff :
    (current target : StoreStatus)
    → is_allowed current target ≡ (not (status_eq current target) && not (status_eq target opening))
unfolding is_allowed
is_allowed_iff opening opening = refl
is_allowed_iff opening active = refl
is_allowed_iff opening inactive = refl
is_allowed_iff opening closed = refl
is_allowed_iff active opening = refl
is_allowed_iff active active = refl
is_allowed_iff active inactive = refl
is_allowed_iff active closed = refl
is_allowed_iff inactive opening = refl
is_allowed_iff inactive active = refl
is_allowed_iff inactive inactive = refl
is_allowed_iff inactive closed = refl
is_allowed_iff closed opening = refl
is_allowed_iff closed active = refl
is_allowed_iff closed inactive = refl
is_allowed_iff closed closed = refl

pub apply_status-closed_consistent :
    (target : StoreStatus) (a : AuthContext) (db : Db) (st : Store)
    → closed_consistent st ≡ true
    → closed_consistent (apply_status target st.status a db st) ≡ true
unfolding closed_consistent
apply_status-closed_consistent closed a db st h = refl
apply_status-closed_consistent opening a db st h = ground arith
apply_status-closed_consistent active a db st h = ground arith
apply_status-closed_consistent inactive a db st h = ground arith

pub apply_status-archived_consistent :
    (target : OrgNodeStatus) (a : AuthContext) (db : Db) (n : OrgNode)
    → archived_consistent n ≡ true
    → archived_consistent (node_status target n.status a db n) ≡ true
unfolding archived_consistent
apply_status-archived_consistent archived a db n h = refl
apply_status-archived_consistent OrgNodeStatus.active a db n h = ground arith
apply_status-archived_consistent OrgNodeStatus.inactive a db n h = ground arith

-- What stays of a store, and its new status.
pub record Moves (target : StoreStatus) (st st' : Store) : Type 0 where
  pub same_id : st'.id ≡ st.id
  pub same_tenant : st'.tenant_id ≡ st.tenant_id
  pub same_node : st'.org_node_id ≡ st.org_node_id
  pub new_status : st'.status ≡ target

pub apply_status-Moves :
    (target current : StoreStatus) (a : AuthContext) (db : Db) (st : Store)
    → Moves target st (apply_status target current a db st)
apply_status-Moves target current a db st = record {
  same_id = ground arith;
  same_tenant = ground arith;
  same_node = ground arith;
  new_status = ground arith;
}

-- What the cascade may do to a node.
pub record Follows (target : OrgNodeStatus) (n n' : OrgNode) : Type 0 where
  pub same_id : n'.id ≡ n.id
  pub same_tenant : n'.tenant_id ≡ n.tenant_id
  pub new_status : n'.status ≡ target

pub node_status-Follows :
    (target current : OrgNodeStatus) (a : AuthContext) (db : Db) (n : OrgNode)
    → Follows target n (stamp db (node_status target current a db) n)
node_status-Follows target current a db n = record {
  same_id = ground arith;
  same_tenant = ground arith;
  new_status = ground arith;
}

abbrev pub is_link : Option Uuid → Uuid → Bool
is_link none i = false
is_link (some j) i = i == j

-- The two rows stand for one place.
abbrev pub is_paired : Store → OrgNode → Bool
is_paired st n = n.tenant_id == st.tenant_id && is_link st.org_node_id n.id

module _ (s : Session) (a : AuthContext) where
  unfoldable pub updated_nodes : Uuid → OrgNodeStatus → Db → OrgNode → List OrgNode
  updated_nodes t target db n =
      update_where (is_node s t n.id) (stamp db (node_status target n.status a db)) db.org_nodes

  -- Where the archive columns fit the status of each node, they fit the new one of the node that the
  -- UPDATE writes.
  status_checked :
      (t : Uuid) (target : OrgNodeStatus) (db : Db) (n : OrgNode)
      → IsKey (λ (n : OrgNode). some n.id) db.org_nodes
      → ((m : OrgNode) → In m db.org_nodes → archived_consistent m ≡ true)
      → In n db.org_nodes
      → violates_archived s t n.id (node_status target n.status a) db ≡ false
  status_checked t target db n key archives at =
      any-not_passed (is_node s t n.id)
        (λ m. archived_consistent (node_status target n.status a db m)) n db.org_nodes
        (λ m at_m q. key m n n.id at_m at (ap some (ground (arith, ==_iff m.id n.id))) refl)
        (apply_status-archived_consistent target a db n (archives n at))

  -- `set_status` returns where the archive columns fit the status of each node, and this is what it
  -- does to the two tables.
  pub set_status_total :
      (t i : Uuid) (target : OrgNodeStatus) (db : Db)
      → IsKey (λ (n : OrgNode). some n.id) db.org_nodes
      → ((n : OrgNode) → In n db.org_nodes → archived_consistent n ≡ true)
      → (o : Option OrgNode) × (db' : Db) × (set_status s t i target a db ≡ ok (o, db'))
        × (db'.stores ≡ db.stores)
        × (db'.tenants ≡ db.tenants)
        × (((find (is_node s t i) db.org_nodes ≡ none) × (db'.org_nodes ≡ db.org_nodes))
            ⊎ ((n : OrgNode) × (find (is_node s t i) db.org_nodes ≡ some n)
                × (db'.org_nodes ≡ updated_nodes t target db n)))
  unfolding set_status updated_nodes
  set_status_total t i target db key archives =
      elim (Option-cases (find (is_node s t i) db.org_nodes)) [
        | inl e ↦ (none, db, rw e refl, refl, refl, inl (e, refl))
        | inr (n, e) ↦ (
          find (is_node s t n.id) (updated_nodes t target db n),
          record db { org_nodes = updated_nodes t target db n },
          rw (e, status_checked t target db n key archives (find-In (is_node s t i) db.org_nodes e))
              refl,
          refl,
          refl,
          inr (n, e, refl),
        )
      ]
