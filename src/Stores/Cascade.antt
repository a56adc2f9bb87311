-- ===== src/Stores/Cascade.antt =====
-- What the cascade of `StoresRepo.transition` (src/admin_backend/repositories/stores.py) does to
-- the rows of `org_nodes`.
use cortex_cm.Base.{
  ◌≡◌, refl, sym, ◌∙◌, ap, ◌⊎◌, inl, inr, Bool, true, false, ◌&&◌, none, some, List, arith, find,
  Bool-cases, Option-cases, ==_iff, In, IsKey, In-update_where, update_where-IsKey, find-In,
  find_sound, any_of_In, any-find, any,
}
use mathlib.Core.Path.{subst}
use cortex_cm.Result.{ok}
use cortex_cm.Models.Columns.{Uuid}
use cortex_cm.Models.Stores.{Store, StoreStatus}
use cortex_cm.Models.OrgNodes.{OrgNode, OrgNodeStatus}
use cortex_cm.Auth.Context.{AuthContext}
use cortex_cm.Database.Tables.{Db}
use cortex_cm.Database.Txn.{pure, >>=-ok}
use cortex_cm.Database.Session.{Session, admits}
use cortex_cm.OrgTree.Rows.{stamp}
use cortex_cm.OrgTree.Nodes.{apply_status as node_status, set_status}
use cortex_cm.Permission.Anchors.{is_node}
use cortex_cm.Stores.Transition.{cascade, to_org_node_status}
use cortex_cm.Models.Checks.{archived_consistent}
use cortex_cm.Stores.Lifecycle.{
  apply_status-archived_consistent, Follows, node_status-Follows, is_paired, updated_nodes,
  set_status_total,
}

module _ (s : Session) (current : Store) where
  -- The node that the cascade reaches.
  abbrev pub is_reached : OrgNode → Bool
  is_reached n = admits s n.tenant_id && is_paired current n

  -- Each node afterwards is one of before: the paired one with the projected status, or another as
  -- it was.
  pub record Effect (target : StoreStatus) (ns ns' : List OrgNode) : Type 0 where
    pub keeps_key : IsKey (λ (n : OrgNode). some n.id) ns'
    pub keeps_archives :
        ((n : OrgNode) → In n ns → archived_consistent n ≡ true)
        → (n : OrgNode) → In n ns'
        → archived_consistent n ≡ true
    pub moves :
        (n' : OrgNode)
        → In n' ns'
        → (n : OrgNode) × In n ns
          × (((is_reached n ≡ true) × Follows (to_org_node_status target) n n')
              ⊎ ((is_reached n ≡ false) × (n' ≡ n)))

  unreached :
      (target : StoreStatus) (ns : List OrgNode)
      → IsKey (λ (n : OrgNode). some n.id) ns
      → ((n : OrgNode) → In n ns → is_reached n ≡ false)
      → Effect target ns ns
  unreached target ns key none_reached = record {
    keeps_key = key;
    keeps_archives = λ h. h;
    moves = λ n i. (n, i, inr (none_reached n i, refl));
  }

  -- The node that `set_status` looks for is the one that is reached.
  is_reached-is_node :
      (j : Uuid) (n : OrgNode)
      → current.org_node_id ≡ some j
      → is_node s current.tenant_id j n ≡ is_reached n
  is_reached-is_node j n e = rw e refl

  not_found :
      (j : Uuid) (ns : List OrgNode)
      → current.org_node_id ≡ some j
      → find (is_node s current.tenant_id j) ns ≡ none
      → (n : OrgNode) → In n ns
      → is_reached n ≡ false
  not_found j ns e none_found n i = elim (Bool-cases (is_reached n)) [
    | inr q ↦ q
    | inl q ↦
        let q' : is_node s current.tenant_id j n ≡ true = is_reached-is_node j n e ∙ q in
        let found : any (is_node s current.tenant_id j) ns ≡ true = any_of_In _ i q' in
        absurd (ground (arith, any-find (is_node s current.tenant_id j) ns))
  ]

module _ (s : Session) (a : AuthContext) (current : Store) (target : StoreStatus) (db : Db) where
  abbrev status : OrgNodeStatus
  status = to_org_node_status target

  abbrev change : OrgNode → OrgNode → OrgNode
  change found n = stamp db (node_status status found.status a db) n

  change-archived_consistent :
      (n : OrgNode) → archived_consistent n ≡ true → archived_consistent (change n n) ≡ true
  unfolding archived_consistent
  change-archived_consistent n h = apply_status-archived_consistent status a db n h

  reached :
      (j : Uuid) (found : OrgNode)
      → IsKey (λ (n : OrgNode). some n.id) db.org_nodes
      → current.org_node_id ≡ some j
      → find (is_node s current.tenant_id j) db.org_nodes ≡ some found
      → Effect s current target db.org_nodes (updated_nodes s a current.tenant_id status db found)
  unfolding updated_nodes
  reached j found key e h =
      let i : In found db.org_nodes = find-In (is_node s current.tenant_id j) db.org_nodes h in
      let is_it : is_node s current.tenant_id j found ≡ true =
        find_sound (is_node s current.tenant_id j) db.org_nodes h in
      let same_id : found.id ≡ j = ground (arith, ==_iff found.id j) in
      let passed : (m : OrgNode) → is_node s current.tenant_id found.id m ≡ is_reached s current m =
        λ m.
          ap (λ i. is_node s current.tenant_id i m) same_id ∙ is_reached-is_node s current j m e in
      record {
        keeps_key =
            update_where-IsKey (λ (n : OrgNode). some n.id) (is_node s current.tenant_id found.id)
              (change found) db.org_nodes
              (λ n. ap some (node_status-Follows status found.status a db n).same_id) key;
        keeps_archives = λ archives n' i'.
            let (m, im, c) = In-update_where _ (change found) _ i' in
            elim c [
              | inl (q, q') ↦
                  let named : m.id ≡ found.id = ground (arith, ==_iff m.id found.id) in
                  let same : m ≡ found =
                    key m found j im i (ap some (named ∙ same_id)) (ap some same_id) in
                  rw (q', same) (change-archived_consistent found (archives found i))
              | inr (q, q') ↦ rw q' (archives m im)
            ];
        moves = λ n' i'.
            let (m, im, c) = In-update_where _ (change found) _ i' in
            elim c [
              | inl (q, q') ↦ (
                m,
                im,
                inl (
                  sym (passed m) ∙ q,
                  subst (Follows status m) (sym q')
                      (node_status-Follows status found.status a db m),
                ),
              )
              | inr (q, q') ↦ (m, im, inr (sym (passed m) ∙ q, q'))
            ];
      }

  settled :
      (db' : Db)
      → IsKey (λ (n : OrgNode). some n.id) db.org_nodes
      → (j : Uuid) → current.org_node_id ≡ some j
      → ((find (is_node s current.tenant_id j) db.org_nodes ≡ none)
          × (db'.org_nodes ≡ db.org_nodes))
        ⊎ ((n : OrgNode) × (find (is_node s current.tenant_id j) db.org_nodes ≡ some n)
            × (db'.org_nodes ≡ updated_nodes s a current.tenant_id status db n))
      → Effect s current target db.org_nodes db'.org_nodes
  settled db' key j e (inl (f, same)) =
      rw same (unreached s current target db.org_nodes key (not_found s current j db.org_nodes e f))
  settled db' key j e (inr (n, f, new)) = rw new (reached j n key e f)

  -- The cascade returns where the archive columns fit the status of each node, with an effect on the
  -- nodes alone (of the tables that count here).
  pub cascade_total :
      IsKey (λ (n : OrgNode). some n.id) db.org_nodes
      → ((n : OrgNode) → In n db.org_nodes → archived_consistent n ≡ true)
      → (db' : Db) × (cascade s current target a db ≡ ok (tt, db'))
        × (db'.stores ≡ db.stores)
        × (db'.tenants ≡ db.tenants)
        × Effect s current target db.org_nodes db'.org_nodes
  cascade_total key archives = elim (Option-cases current.org_node_id) [
    | inl e ↦ (
      db,
      rw e refl,
      refl,
      refl,
      unreached s current target db.org_nodes key (λ n i. rw e (ground arith)),
    )
    | inr (j, e) ↦
        let (o, db', r, same, tenants, c) =
          set_status_total s a current.tenant_id j status db key archives in
        (
          db',
          rw e (>>=-ok (set_status s current.tenant_id j status a) (λ o. pure tt) db r),
          same,
          tenants,
          settled db' key j e c,
        )
  ]
