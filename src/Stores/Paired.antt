-- ===== src/Stores/Paired.antt =====
-- What `StoresRepo.create` of src/admin_backend/repositories/stores.py does to the tables of stores and
-- of nodes.
use cortex_cm.Base.{
  ◌≡◌, sym, ◌⊎◌, inl, inr, ℕ, Bool, true, false, not, ◌&&◌, ◌||◌, Option, none, some, List, arith,
  Text, find, any, Bool-cases, Option-cases,
}
use mathlib.Core.Path.{subst}
use cortex_cm.Result.{ok}
use cortex_cm.Errors.{client_error, uncaught, invalid_parent_node_type, duplicate_store_code}
use cortex_cm.Models.Columns.{Uuid, Decimal}
use cortex_cm.Models.OrgNodes.{OrgNode, OrgNodeType}
use cortex_cm.Auth.Context.{AuthContext}
use cortex_cm.Database.Tables.{Db}
use cortex_cm.Database.Session.{Session, admits}
use cortex_cm.Database.Txn.{
  Txn, pure, gets, or_throw, throw_if, modify, ◌>>=◌, ◌>>◌, >>=-eq-ok, pure-eq-ok, after-throw_if,
  throw_if-eq-ok, or_throw-eq-ok,
}
use cortex_cm.Audit.Keeps.{SameTables, SameTables-refl, emit_audit_event-SameTables}
use cortex_cm.OrgTree.Rows.{new_node, add_row}
use cortex_cm.OrgTree.Nodes.{child_path, add_node}
use cortex_cm.OrgTree.Tree.{add_node-ok}
use cortex_cm.Permission.Anchors.{is_node}
use cortex_cm.Stores.Transition.{StoreDetailRow, is_store, detail_of, get_by_id}
use cortex_cm.Stores.Create.{
  NewStore, is_store_type, new_store, add_store, is_valid_store, tenant_exists,
  check_parent_node_for_store, raise_if_store_code_taken, has_code, insert_store,
  emit_store_created, respond_created, create_pair, create,
}
use cortex_cm.Stores.Lifecycle.{is_link}

module _ (sort_names : List Text → List Text) (within : ℕ → Decimal → Bool) (s : Session) (t : Uuid)
    (f : NewStore) (a : AuthContext) (rid : Option Uuid) where
  insert_store-ok :
      (n : OrgNode) (db : Db) {i : Uuid} {db' : Db}
      → insert_store s t within f a n db ≡ ok (i, db')
      → db' ≡ add_store (new_store t n f a db) db
  insert_store-ok n db {i} {db'} h =
      let st = new_store t n f a db in
      let write : Txn Uuid = modify (add_store st) >> gets (λ db. st.id) in
      let index : Txn Uuid =
        gets (λ db.
          any (λ r. is_link r.org_node_id n.id || has_code s t f.store_code none r) db.stores)
        >>= λ clash. throw_if clash uncaught >> write in
      let (valid, h1) =
        after-throw_if (not (admits s st.tenant_id && is_valid_store within st)) uncaught index db
          h in
      let (new, h2) =
        after-throw_if
          (any (λ r. is_link r.org_node_id n.id || has_code s t f.store_code none r) db.stores)
          uncaught write db h1 in
      sym (ground arith)

  emit_store_created-SameTables :
      (n : OrgNode) (row : StoreDetailRow) (rid : Option Uuid) (db : Db) {db' : Db}
      → emit_store_created sort_names within s t a n row rid db ≡ ok (tt, db')
      → SameTables db db'
  emit_store_created-SameTables n row none db h =
      subst (SameTables db) (sym ((pure-eq-ok h).1)) (SameTables-refl db)
  emit_store_created-SameTables n row (some r) db h =
      emit_audit_event-SameTables sort_names s a _ db h

  respond_created-ok :
      (n : OrgNode) (i : Uuid) (db : Db) {x : Option StoreDetailRow} {db' : Db}
      → respond_created sort_names within s t a rid n i db ≡ ok (x, db')
      → SameTables db db'
  respond_created-ok n i db {x} {db'} h =
      let answer : StoreDetailRow → Txn (Option StoreDetailRow) =
        λ row. emit_store_created sort_names within s t a n row rid >> pure (some row) in
      let (row, db1, read, h1) =
        >>=-eq-ok (get_by_id s i >>= λ fetched. or_throw fetched uncaught) answer db h in
      let (found, same) =
        or_throw-eq-ok (detail_of s db (find (is_store s i) db.stores)) uncaught read in
      let (u, db2, emitted, h2) =
        >>=-eq-ok (emit_store_created sort_names within s t a n row rid) (λ _. pure (some row)) db1
          h1 in
      let (is_x, last) = pure-eq-ok h2 in
      subst (SameTables db) (sym last)
        (subst (λ d. SameTables d db2) same (emit_store_created-SameTables n row rid db1 emitted))

  -- A node and a store have come about, one after the other, from the state `db`.
  abbrev pub IsPairWritten : Db → Db → Type 0
  IsPairWritten db db' =
      (p : OrgNode) × (n : OrgNode) × (between : Db) × (find (is_node s t f.parent_org_node_id)
          db.org_nodes
        ≡ some p)
      × (n
          ≡ new_node t p (child_path p.path f.store_code) OrgNodeType.store f.store_code f.name a
              db)
      × SameTables (add_row n db) between
      × SameTables (add_store (new_store t n f a between) between) db'

  create_pair-ok :
      (db : Db) {x : Option StoreDetailRow} {db' : Db}
      → create_pair sort_names within s t f a rid db ≡ ok (x, db')
      → IsPairWritten db db'
  create_pair-ok db {x} {db'} h =
      let finish : OrgNode → Txn (Option StoreDetailRow) =
        λ n. insert_store s t within f a n >>= respond_created sort_names within s t a rid n in
      let (n, db1, added, h1) =
        >>=-eq-ok
          (add_node sort_names s t f.parent_org_node_id OrgNodeType.store f.store_code f.name a
            none)
          finish db h in
      let (p, found, lt, free, is_n, keeps) =
        add_node-ok sort_names s a t f.parent_org_node_id OrgNodeType.store f.store_code f.name none
          db n db1 added in
      let (i, db2, inserted, h2) =
        >>=-eq-ok (insert_store s t within f a n) (respond_created sort_names within s t a rid n)
          db1 h1 in
      let same = insert_store-ok n db1 inserted in
      (
        p,
        n,
        db1,
        found,
        is_n,
        keeps,
        subst (λ d. SameTables d db') same (respond_created-ok n i db2 h2),
      )

  -- A creation that returns has either seen no tenant, and changed nothing, or written the pair.
  pub create-ok :
      (db : Db) (x : Option StoreDetailRow) (db' : Db)
      → create sort_names within s t f a rid db ≡ ok (x, db')
      → ((tenant_exists s t db ≡ false) × (x ≡ none) × (db' ≡ db))
        ⊎ ((tenant_exists s t db ≡ true) × IsPairWritten db db')
  unfolding create
  create-ok db x db' h = elim (Bool-cases (tenant_exists s t db)) [
    | inr q ↦ let (is_x, same) = pure-eq-ok (rw q at h) in inl (q, is_x, same)
    | inl q ↦
        let rest : Txn (Option StoreDetailRow) =
          raise_if_store_code_taken s t f.store_code none
          >> create_pair sort_names within s t f a rid in
        let h1 : (check_parent_node_for_store s t f.parent_org_node_id >> rest) db ≡ ok (x, db') =
          rw q at h in
        let (u, db1, checked, h2) =
          >>=-eq-ok (check_parent_node_for_store s t f.parent_org_node_id) (λ _. rest) db h1 in
        let same : db1 ≡ db = checked_same db checked in
        let h3 : rest db ≡ ok (x, db') = subst (λ d. rest d ≡ ok (x, db')) same h2 in
        let (free, h4) =
          after-throw_if (any (has_code s t f.store_code none) db.stores)
            (client_error duplicate_store_code) (create_pair sort_names within s t f a rid) db h3 in
        inr (q, create_pair-ok db h4)
  ]
    where
      checked_same :
          (db : Db) {u : Unit {0}} {db' : Db}
          → check_parent_node_for_store s t f.parent_org_node_id db ≡ ok (u, db')
          → db' ≡ db
      checked_same db {u} {db'} h =
          elim (Option-cases (find (is_node s t f.parent_org_node_id) db.org_nodes)) [
            | inl e ↦ absurd (ground arith)
            | inr (p, e) ↦
                (throw_if-eq-ok (is_store_type p.node_type) (client_error invalid_parent_node_type)
                  (rw e at h)).1
          ]
