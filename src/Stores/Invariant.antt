-- ===== src/Stores/Invariant.antt =====
-- The tables of stores and nodes stay consistent under `StoresRepo.transition`
-- (src/admin_backend/repositories/stores.py).
use mathlib.Core.Path.{subst}
use cortex_cm.Base.{
  ◌≡◌, refl, sym, ◌∙◌, ap, ◌⊎◌, inl, inr, true, false, Option, some, List, arith, find,
  update_where, Option-cases, ◌==◌, ==_iff, In, IsKey, In-update_where, update_where-IsKey, find-In,
  find_sound, and-split, and-join,
}
use cortex_cm.Models.Columns.{Uuid}
use cortex_cm.Models.Stores.{Store, StoreStatus}
use cortex_cm.Models.OrgNodes.{OrgNode}
use cortex_cm.Auth.Context.{AuthContext}
use cortex_cm.Database.Tables.{Db}
use cortex_cm.Database.Session.{Session, admits}
use cortex_cm.Stores.Transition.{to_org_node_status, apply_status, is_store}
use cortex_cm.Models.Checks.{closed_consistent, archived_consistent}
use cortex_cm.Stores.Lifecycle.{
  apply_status-closed_consistent, apply_status-Moves, Follows, is_paired, is_link,
}
use cortex_cm.Stores.Cascade.{Effect, is_reached}

-- The keys and checks of the two tables, and that a store and its paired node are in step.
pub record IsConsistent (sts : List Store) (ns : List OrgNode) : Type 0 where
  pub store_key : IsKey (λ (st : Store). some st.id) sts
  pub link_key : IsKey (λ (st : Store). st.org_node_id) sts
  pub node_key : IsKey (λ (n : OrgNode). some n.id) ns
  pub closures : (st : Store) → In st sts → closed_consistent st ≡ true
  pub archives : (n : OrgNode) → In n ns → archived_consistent n ≡ true
  pub in_step :
      (st : Store) (n : OrgNode)
      → In st sts
      → In n ns
      → is_paired st n ≡ true
      → n.status ≡ to_org_node_status st.status

pub is_paired_link : (st : Store) (n : OrgNode) → is_paired st n ≡ true → st.org_node_id ≡ some n.id
is_paired_link st n h = elim (Option-cases st.org_node_id) [
  | inl e ↦ absurd (ground arith)
  | inr (j, e) ↦ ground (arith, ==_iff n.id j)
]

module _ (s : Session) (a : AuthContext) (db : Db) (current : Store) (target : StoreStatus)
    (store_id : Uuid) where
  abbrev pub changed : List Store
  changed = update_where (is_store s store_id) (apply_status target current.status a db) db.stores

  changed-IsKey :
      {K : Type 0} (key : Store → Option K)
      → ((current : StoreStatus) (st : Store) → key (apply_status target current a db st) ≡ key st)
      → IsKey key db.stores
      → IsKey key changed
  changed-IsKey key keeps unique =
      update_where-IsKey key (is_store s store_id) (apply_status target current.status a db)
        db.stores (keeps current.status) unique

  -- A row of the updated table: the store itself, moved, or another one as it was.
  source :
      IsKey (λ (st : Store). some st.id) db.stores
      → find (is_store s store_id) db.stores ≡ some current
      → (st' : Store) → In st' changed
      → (st' ≡ apply_status target current.status a db current)
        ⊎ (In st' db.stores × (is_store s store_id st' ≡ false))
  source key f st' i =
      let (st, ist, c) =
        In-update_where (is_store s store_id) (apply_status target current.status a db) db.stores
          i in
      elim c [
        | inl (q, e) ↦
            let is_it : is_store s store_id current ≡ true =
              find_sound (is_store s store_id) db.stores f in
            let same_id : st.id ≡ current.id =
              ground (arith, ==_iff st.id store_id, ==_iff current.id store_id) in
            let same : st ≡ current =
              key st current current.id ist (find-In (is_store s store_id) db.stores f)
                (ap some same_id) refl in
            inl (e ∙ ap (apply_status target current.status a db) same)
        | inr (q, e) ↦ inr (rw e ist, rw e q)
      ]

  abbrev moved_store : Store
  moved_store = apply_status target current.status a db current

  moved_pair : (n : OrgNode) → is_paired moved_store n ≡ is_paired current n
  moved_pair n =
      let m = apply_status-Moves target current.status a db current in
      rw (m.same_tenant, m.same_node) refl

  -- The store that moves and a node of the new table that is paired with it.
  in_step_moved :
      (n n' : OrgNode)
      → is_store s store_id current ≡ true
      → is_paired moved_store n' ≡ true
      → ((is_reached s current n ≡ true) × Follows (to_org_node_status target) n n')
        ⊎ ((is_reached s current n ≡ false) × (n' ≡ n))
      → n'.status ≡ to_org_node_status moved_store.status
  in_step_moved n n' is_it paired (inl (q, follows)) =
      follows.new_status
      ∙ ap to_org_node_status
          (sym (apply_status-Moves target current.status a db current).new_status)
  in_step_moved n n' is_it paired (inr (q, e)) =
      let here : is_paired current n ≡ true =
        subst (λ m. is_paired current m ≡ true) e (sym (moved_pair n') ∙ paired) in
      let own : n.tenant_id ≡ current.tenant_id =
        (==_iff n.tenant_id current.tenant_id).0
          (and-split (n.tenant_id == current.tenant_id) (is_link current.org_node_id n.id)
            here).0 in
      let seen : admits s n.tenant_id ≡ true =
        ap (admits s) own
        ∙ (and-split (admits s current.tenant_id) (current.id == store_id) is_it).0 in
      let hit : is_reached s current n ≡ true = and-join seen here in absurd (cc)

  -- Another store and a node of the new table that is paired with it.
  in_step_other :
      IsConsistent db.stores db.org_nodes
      → (st : Store) (n n' : OrgNode) → In current db.stores
      → is_store s store_id current ≡ true
      → In st db.stores
      → is_store s store_id st ≡ false
      → In n db.org_nodes
      → is_paired st n' ≡ true
      → ((is_reached s current n ≡ true) × Follows (to_org_node_status target) n n')
        ⊎ ((is_reached s current n ≡ false) × (n' ≡ n))
      → n'.status ≡ to_org_node_status st.status
  in_step_other c st n n' icur is_it ist other inn paired (inr (q, e)) =
      ap (λ (m : OrgNode). m.status) e
      ∙ c.in_step st n ist inn (subst (λ m. is_paired st m ≡ true) e paired)
  in_step_other c st n n' icur is_it ist other inn paired (inl (q, follows)) =
      let l : st.org_node_id ≡ some n'.id = is_paired_link st n' paired in
      let l' : current.org_node_id ≡ some n.id =
        is_paired_link current n (and-split (admits s n.tenant_id) (is_paired current n) q).1 in
      let same : st ≡ current =
        c.link_key st current n.id ist icur (l ∙ ap some follows.same_id) l' in
      let clash : is_store s store_id current ≡ false =
        subst (λ m. is_store s store_id m ≡ false) same other in
      absurd (cc)

  pub moved-IsConsistent :
      (ns' : List OrgNode)
      → IsConsistent db.stores db.org_nodes
      → find (is_store s store_id) db.stores ≡ some current
      → Effect s current target db.org_nodes ns'
      → IsConsistent changed ns'
  moved-IsConsistent ns' c f effect =
      let icur : In current db.stores = find-In (is_store s store_id) db.stores f in
      let is_it : is_store s store_id current ≡ true =
        find_sound (is_store s store_id) db.stores f in
      record {
        store_key =
            changed-IsKey (λ (st : Store). some st.id)
              (λ now st. ap some (apply_status-Moves target now a db st).same_id) c.store_key;
        link_key =
            changed-IsKey (λ (st : Store). st.org_node_id)
              (λ now st. (apply_status-Moves target now a db st).same_node) c.link_key;
        node_key = effect.keeps_key;
        closures = λ st' i. elim (source c.store_key f st' i) [
          | inl e ↦
              rw e (apply_status-closed_consistent target a db current (c.closures current icur))
          | inr (ist, other) ↦ c.closures st' ist
        ];
        archives = effect.keeps_archives c.archives;
        in_step = λ st' n' i j paired.
            let (n, inn, step) = effect.moves n' j in
            elim (source c.store_key f st' i) [
              | inl e ↦
                  subst (λ (m : Store). n'.status ≡ to_org_node_status m.status) (sym e)
                    (in_step_moved n n' is_it (subst (λ m. is_paired m n' ≡ true) e paired) step)
              | inr (ist, other) ↦ in_step_other c st' n n' icur is_it ist other inn paired step
            ];
      }
