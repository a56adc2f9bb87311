-- ===== src/OrgTree/Tree.antt =====
-- The shape of the tree under `OrgNodesRepo.add_node` of
-- src/admin_backend/repositories/org_nodes.py, and paths along it.
use cortex_cm.Base.{
  ◌≡◌, sym, ◌⊎◌, inl, inr, ◌<◌, true, false, Option, none, some, List, ◌∷◌, arith, Text, find,
  Option-cases, ==_refl, In, there,
}
use mathlib.Core.Path.{subst}
use cortex_cm.Result.{ok}
use cortex_cm.Models.Columns.{Uuid}
use cortex_cm.Models.OrgNodes.{OrgNode, OrgNodeType}
use cortex_cm.Auth.Context.{AuthContext}
use cortex_cm.Database.Tables.{Db}
use cortex_cm.Database.Session.{Session, admits}
use cortex_cm.Database.Txn.{Txn, pure, ◌>>=◌, ◌>>◌, >>=-eq-ok, pure-eq-ok}
use cortex_cm.OrgTree.Order.{ordinal, check_cascade_order}
use cortex_cm.OrgTree.Rows.{insert_node, new_node, code_taken, add_row}
use cortex_cm.OrgTree.Nodes.{child_path, add_node, respond, emit_created}
use cortex_cm.Permission.Anchors.{is_node}
use cortex_cm.Audit.Keeps.{SameTables, SameTables-refl, emit_audit_event-SameTables}

module _ (s : Session) where
  insert_node-ok :
      (make : Db → OrgNode) (db : Db) {i : Uuid} {db' : Db}
      → insert_node s make db ≡ ok (i, db')
      → (code_taken (make db).tenant_id (make db).code db.org_nodes ≡ false)
        × (i ≡ (make db).id)
        × (db' ≡ add_row (make db) db)
        × (admits s (make db).tenant_id ≡ true)
  insert_node-ok make db h = ground arith

-- A node without a parent, or one that hangs below its parent: in the same tenant, of a type further
-- down, and at the parent's path with the label of its own code.
abbrev pub IsPlaced : List OrgNode → OrgNode → Type 0
IsPlaced ns n =
    (n.parent_id ≡ none)
    ⊎ ((p : OrgNode) × In p ns
        × (n.parent_id ≡ some p.id)
        × (n.tenant_id ≡ p.tenant_id)
        × (ordinal p.node_type < ordinal n.node_type)
        × (n.path ≡ child_path p.path n.code))

abbrev pub IsTree : List OrgNode → Type 0
IsTree ns = (n : OrgNode) → In n ns → IsPlaced ns n

-- A place stays one when a node is added.
IsPlaced-cons : (m n : OrgNode) (ns : List OrgNode) → IsPlaced ns n → IsPlaced (m ∷ ns) n
IsPlaced-cons m n ns (inl e) = inl e
IsPlaced-cons m n ns (inr (p, i, e, f, lt, q)) = inr (p, there i, e, f, lt, q)

module _ (sort_names : List Text → List Text) (s : Session) (a : AuthContext) (t : Uuid) where
  pub emit_created-SameTables :
      (parent row : OrgNode) (rid : Option Uuid) (db : Db) {db' : Db}
      → emit_created sort_names s a t parent row rid db ≡ ok (tt, db')
      → SameTables db db'
  emit_created-SameTables parent row none db h =
      subst (SameTables db) (sym ((pure-eq-ok h).1)) (SameTables-refl db)
  emit_created-SameTables parent row (some r) db h =
      emit_audit_event-SameTables sort_names s a _ db h

  respond-ok :
      (parent n : OrgNode) (rid : Option Uuid) (db : Db) {row : OrgNode} {db' : Db}
      → is_node s t n.id n ≡ true
      → respond sort_names s t parent a rid n.id (add_row n db) ≡ ok (row, db')
      → (row ≡ n) × SameTables (add_row n db) db'
  respond-ok parent n rid db {row} {db'} is_it h =
      let answer : OrgNode → Txn OrgNode =
        λ r. emit_created sort_names s a t parent r rid >> pure r in
      let h1 : answer n (add_row n db) ≡ ok (row, db') = rw is_it at h in
      let (u, db2, emitted, h2) =
        >>=-eq-ok (emit_created sort_names s a t parent n rid) (λ _. pure n) (add_row n db) h1 in
      let (is_n, last) = pure-eq-ok h2 in
      (
        is_n,
        subst (SameTables (add_row n db)) (sym last)
            (emit_created-SameTables parent n rid (add_row n db) emitted),
      )

  -- An addition that succeeds has found its parent in the tenant, of a type above the new one, and
  -- the code free in the tenant; it returns the new node, which hangs below the parent under the
  -- next id, and the table of nodes has gained that node; no other table of data has changed.
  pub add_node-ok :
      (parent_id : Uuid) (type : OrgNodeType) (code name : Text) (rid : Option Uuid) (db : Db)
      (row : OrgNode) (db' : Db)
      → add_node sort_names s t parent_id type code name a rid db ≡ ok (row, db')
      → (p : OrgNode) × (find (is_node s t parent_id) db.org_nodes ≡ some p)
        × (ordinal p.node_type < ordinal type)
        × (code_taken t code db.org_nodes ≡ false)
        × (row ≡ new_node t p (child_path p.path code) type code name a db)
        × SameTables (add_row row db) db'
  unfolding add_node
  add_node-ok parent_id type code name rid db row db' h =
      elim (Option-cases (find (is_node s t parent_id) db.org_nodes)) [
        | inl e ↦ absurd (ground arith)
        | inr (p, e) ↦
            let (u, db1, checked, h1) =
              >>=-eq-ok (check_cascade_order p.node_type type) (λ _. insert_below p) db
                (rw e at h) in
            let still : db1 ≡ db = sym (ground arith) in
            let h2 : insert_below p db ≡ ok (row, db') =
              subst (λ d. insert_below p d ≡ ok (row, db')) still h1 in
            let (i, db2, inserted, h3) =
              >>=-eq-ok (insert_node s (made p)) (respond sort_names s t p a rid) db h2 in
            let (free, named, added, seen) = insert_node-ok s (made p) db inserted in
            let h4 : respond sort_names s t p a rid db.next_id (add_row (made p db) db)
                ≡ ok (row, db') =
              rw (named, added) at h3 in
            let (is_row, keeps) =
              respond-ok p (made p db) rid db (ground (arith, seen, ==_refl t, ==_refl db.next_id))
                h4 in
            (
              p,
              e,
              ground arith,
              free,
              is_row,
              subst (λ n. SameTables (add_row n db) db') (sym is_row) keeps,
            )
      ]
    where
      made : OrgNode → Db → OrgNode
      made p = new_node t p (child_path p.path code) type code name a

      insert_below : OrgNode → Txn OrgNode
      insert_below p = insert_node s (made p) >>= respond sort_names s t p a rid
