-- ===== src/Stores/Outcome.antt =====
-- The outcomes of `StoresRepo.transition` (src/admin_backend/repositories/stores.py) on the whole
-- database.
use cortex_cm.Base.{
  ◌≡◌, refl, sym, ◌∙◌, ap, ◌⊎◌, inl, inr, true, false, Option, none, some, List, arith, Text, find,
  Bool-cases, Option-cases, IsKey, In, find-In, find_sound, and-split, any, ◌==◌, ==_iff,
  any-not_passed, update_where,
}
use mathlib.Core.Path.{subst}
use cortex_cm.Result.{ok}
use cortex_cm.Errors.{uncaught}
use cortex_cm.Models.Columns.{Uuid}
use cortex_cm.Models.Checks.{closed_consistent, archived_consistent}
use cortex_cm.Models.Stores.{Store, StoreStatus}
use cortex_cm.Models.OrgNodes.{OrgNode}
use cortex_cm.Auth.Context.{AuthContext}
use cortex_cm.Database.Tables.{Db}
use cortex_cm.Database.Session.{Session, admits}
use cortex_cm.Models.Tenants.{Tenant}
use cortex_cm.Database.Txn.{Txn, pure, modify, ◌>>=◌, ◌>>◌, >>=-ok, >>=-eq-ok, after-throw_if}
use cortex_cm.Stores.Transition.{
  is_allowed, StoreDetailRow, is_store, detail_of, get_by_id, cascade, emit_moved, move, transition,
  apply_status, violates_closed, update_store,
}
use cortex_cm.Tenants.Transition.{TransitionResult, moved, not_found, invalid_state}
use cortex_cm.Stores.Lifecycle.{apply_status-closed_consistent}
use cortex_cm.Stores.Cascade.{Effect, cascade_total}
use cortex_cm.Stores.Invariant.{IsConsistent, changed, moved-IsConsistent}
use cortex_cm.Audit.Emit.{has_tenant, emit_audit_event-keeps, emit_audit_event-total}

returned : {A : Type 0} {x y : A} {db db' : Db} → pure x db ≡ ok (y, db') → (y ≡ x) × (db' ≡ db)
returned h = (sym (ground arith), sym (ground arith))

module _ (sort_names : List Text → List Text) (s : Session) (a : AuthContext) (target : StoreStatus)
    (store_id : Uuid) (rid : Option Uuid) where
  emit_moved-keeps :
      (current : Store) (r : Option Uuid) (row : Option StoreDetailRow) (db : Db) {db' : Db}
      → emit_moved sort_names s a current target r row db ≡ ok (tt, db')
      → (db'.stores ≡ db.stores) × (db'.org_nodes ≡ db.org_nodes)
  emit_moved-keeps current (some r) (some row) db h =
      let (nodes, stores, tenants) = emit_audit_event-keeps sort_names s a _ db h in (stores, nodes)
  emit_moved-keeps current (some r) none db h = (ground arith, ground arith)
  emit_moved-keeps current none row db h = (ground arith, ground arith)

  update_store-eq-ok :
      (f : Db → Store → Store) (db : Db) {u : Unit {0}} {db' : Db}
      → update_store s store_id f db ≡ ok (u, db')
      → db' ≡ record db { stores = update_where (is_store s store_id) (f db) db.stores }
  update_store-eq-ok f db h =
      let (_, h') =
        after-throw_if (violates_closed s store_id f db) uncaught
          (modify
            (λ db. record db { stores = update_where (is_store s store_id) (f db) db.stores }))
          db h in
      sym (ground arith)

  -- A move that returns has updated the store, and the cascade has had its effect.
  move-ok :
      (current : Store) (db : Db) {x : Option StoreDetailRow × TransitionResult} {db' : Db}
      → IsKey (λ (n : OrgNode). some n.id) db.org_nodes
      → ((n : OrgNode) → In n db.org_nodes → archived_consistent n ≡ true)
      → move sort_names s store_id target a rid current db ≡ ok (x, db')
      → (x.1 ≡ moved)
        × (db'.stores ≡ changed s a db current target store_id)
        × Effect s current target db.org_nodes db'.org_nodes
  move-ok current db {x} {db'} key archives h0 =
      let db1 : Db = record db { stores = changed s a db current target store_id } in
      let (db2, r, same, tenants, effect) = cascade_total s a current target db1 key archives in
      let report : Option StoreDetailRow → Txn (Option StoreDetailRow × TransitionResult) =
        λ row. emit_moved sort_names s a current target rid row >> pure (row, moved) in
      let (_, between, updated, h') =
        >>=-eq-ok (update_store s store_id (apply_status target current.status a))
          (λ _. cascade s current target a >> (get_by_id s store_id >>= report)) db h0 in
      let h : (cascade s current target a >> (get_by_id s store_id >>= report)) db1 ≡ ok (x, db') =
        subst
          (λ (d : Db).
            (cascade s current target a >> (get_by_id s store_id >>= report)) d ≡ ok (x, db'))
          (update_store-eq-ok (apply_status target current.status a) db updated) h' in
      let h1 : (get_by_id s store_id >>= report) db2 ≡ ok (x, db') =
        sym (>>=-ok (cascade s current target a) (λ _. get_by_id s store_id >>= report) db1 r)
        ∙ h in
      let (row, db3, read, h2) = >>=-eq-ok (get_by_id s store_id) report db2 h1 in
      let (u, db4, emitted, h3) =
        >>=-eq-ok (emit_moved sort_names s a current target rid row) (λ _. pure (row, moved)) db3
          h2 in
      let (stores, nodes) = emit_moved-keeps current rid row db3 emitted in
      let as_read : db3 ≡ db2 = sym (ground arith) in
      let last : db' ≡ db4 = sym (ground arith) in
      (
        ground arith,
        ap (λ (d : Db). d.stores) last ∙ stores ∙ ap (λ (d : Db). d.stores) as_read ∙ same,
        subst (Effect s current target db.org_nodes)
            (sym (ap (λ (d : Db). d.org_nodes) last ∙ nodes ∙ ap (λ (d : Db). d.org_nodes) as_read))
            effect,
      )

  -- Where node ids are keys and the archive columns fit the status of each node, a transition that
  -- returns has one of three outcomes. No visible store:
  -- `NOT_FOUND`, nothing changed. A status from which the target is not allowed: `INVALID_STATE`,
  -- nothing changed. Else `OK`: the store is updated, the visible nodes paired with it get the
  -- projected status, and the other nodes are as they were.
  pub transition_cases :
      (db : Db) (x : Option StoreDetailRow × TransitionResult) (db' : Db)
      → IsKey (λ (n : OrgNode). some n.id) db.org_nodes
      → ((n : OrgNode) → In n db.org_nodes → archived_consistent n ≡ true)
      → transition sort_names s store_id target a rid db ≡ ok (x, db')
      → ((find (is_store s store_id) db.stores ≡ none) × (x ≡ (none, not_found)) × (db' ≡ db))
        ⊎ ((st : Store) × (find (is_store s store_id) db.stores ≡ some st)
            × (((is_allowed st.status target ≡ false) × (x ≡ (none, invalid_state)) × (db' ≡ db))
                ⊎ ((is_allowed st.status target ≡ true)
                    × (x.1 ≡ moved)
                    × (db'.stores ≡ changed s a db st target store_id)
                    × Effect s st target db.org_nodes db'.org_nodes)))
  unfolding transition
  transition_cases db x db' key archives h =
      elim (Option-cases (find (is_store s store_id) db.stores)) [
        | inl e ↦ let (q, same) = returned (rw e at h) in inl (e, q, same)
        | inr (st, e) ↦ inr (
          st,
          e,
          elim (Bool-cases (is_allowed st.status target)) [
            | inl q ↦
                let (is_moved, stores, effect) = move-ok st db key archives (rw (e, q) at h) in
                inr (q, is_moved, stores, effect)
            | inr q ↦ let (r, same) = returned (rw (e, q) at h) in inl (q, r, same)
          ],
        )
      ]

  -- A transition that returns, with whatever outcome, leaves the tables of stores and nodes
  -- consistent if they were: ids and links are keys; the closure columns of each store and the
  -- archive columns of each node are all set or all null as its status says; and each store's paired
  -- node has the projection of its status.
  pub transition-IsConsistent :
      (db : Db) (x : Option StoreDetailRow × TransitionResult) (db' : Db)
      → IsConsistent db.stores db.org_nodes
      → transition sort_names s store_id target a rid db ≡ ok (x, db')
      → IsConsistent db'.stores db'.org_nodes
  transition-IsConsistent db x db' c h = elim (transition_cases db x db' c.node_key c.archives h) [
    | inl (e, q, same) ↦ rw same c
    | inr (st, e, outcome) ↦ elim outcome [
      | inl (q, r, same) ↦ rw same c
      | inr (q, r, stores, effect) ↦
          rw stores (moved-IsConsistent s a db st target store_id db'.org_nodes c e effect)
    ]
  ]

  emit_moved-total :
      (current : Store) (r : Option Uuid) (row : Option StoreDetailRow) (db : Db)
      → admits s current.tenant_id ≡ true
      → has_tenant db current.tenant_id ≡ true
      → (db' : Db) × (emit_moved sort_names s a current target r row db ≡ ok (tt, db'))
  emit_moved-total current (some r) (some row) db seen known =
      emit_audit_event-total sort_names s a _ db current.tenant_id refl refl seen known refl
  emit_moved-total current (some r) none db seen known = (db, refl)
  emit_moved-total current none row db seen known = (db, refl)

  move-total :
      (current : Store) (db : Db)
      → IsKey (λ (n : OrgNode). some n.id) db.org_nodes
      → ((n : OrgNode) → In n db.org_nodes → archived_consistent n ≡ true)
      → violates_closed s store_id (apply_status target current.status a) db ≡ false
      → admits s current.tenant_id ≡ true
      → has_tenant db current.tenant_id ≡ true
      → (x : Option StoreDetailRow × TransitionResult) × (db' : Db) × (move sort_names s store_id
            target a rid current db
          ≡ ok (x, db'))
  move-total current db key archives passed seen known =
      let db1 : Db = record db { stores = changed s a db current target store_id } in
      let (db2, r, same, tenants, effect) = cascade_total s a current target db1 key archives in
      let row : Option StoreDetailRow = detail_of s db2 (find (is_store s store_id) db2.stores) in
      let report : Option StoreDetailRow → Txn (Option StoreDetailRow × TransitionResult) =
        λ row. emit_moved sort_names s a current target rid row >> pure (row, moved) in
      let known2 : has_tenant db2 current.tenant_id ≡ true =
        ap (λ ts. any (λ (t : Tenant). t.id == current.tenant_id) ts) tenants ∙ known in
      let (db3, emitted) = emit_moved-total current rid row db2 seen known2 in
      (
        (row, moved),
        db3,
        rw passed (>>=-ok (cascade s current target a) (λ _. get_by_id s store_id >>= report) db1 r)
            ∙ >>=-ok (emit_moved sort_names s a current target rid row) (λ _. pure (row, moved)) db2
                emitted,
      )

  closed_checked :
      (db : Db) (st : Store)
      → IsKey (λ (st : Store). some st.id) db.stores
      → ((st : Store) → In st db.stores → closed_consistent st ≡ true)
      → find (is_store s store_id) db.stores ≡ some st
      → violates_closed s store_id (apply_status target st.status a) db ≡ false
  closed_checked db st key closures found =
      let at = find-In (is_store s store_id) db.stores found in
      let is_it = find_sound (is_store s store_id) db.stores found in
      any-not_passed (is_store s store_id)
        (λ x. closed_consistent (apply_status target st.status a db x)) st db.stores
        (λ x at_x q.
          key x st st.id at_x at
            (ap some (ground (arith, ==_iff x.id store_id, ==_iff st.id store_id))) refl)
        (apply_status-closed_consistent target a db st (closures st at))

  -- A transition returns, with one of its outcomes, where the two tables keep their constraints: ids
  -- are keys, the closure columns of each store and the archive columns of each node fit its status,
  -- and each store's tenant is in its table. Then none of its writes fails a check, whatever the target,
  -- the caller, and the request id.
  pub transition-total :
      (db : Db)
      → IsKey (λ (st : Store). some st.id) db.stores
      → IsKey (λ (n : OrgNode). some n.id) db.org_nodes
      → ((st : Store) → In st db.stores → closed_consistent st ≡ true)
      → ((n : OrgNode) → In n db.org_nodes → archived_consistent n ≡ true)
      → ((st : Store) → In st db.stores → has_tenant db st.tenant_id ≡ true)
      → (x : Option StoreDetailRow × TransitionResult) × (db' : Db) × (transition sort_names s
            store_id target a rid db
          ≡ ok (x, db'))
  unfolding transition
  transition-total db store_key node_key closures archives known =
      elim (Option-cases (find (is_store s store_id) db.stores)) [
        | inl e ↦ ((none, not_found), db, rw e refl)
        | inr (st, e) ↦
            let seen : admits s st.tenant_id ≡ true =
              (and-split (admits s st.tenant_id) (st.id == store_id)
                (find_sound (is_store s store_id) db.stores e)).0 in
            elim (Bool-cases (is_allowed st.status target)) [
              | inr q ↦ ((none, invalid_state), db, rw (e, q) refl)
              | inl q ↦
                  let (x, db', r) =
                    move-total st db node_key archives (closed_checked db st store_key closures e)
                      seen (known st (find-In (is_store s store_id) db.stores e)) in
                  (x, db', rw (e, q) r)
            ]
      ]
