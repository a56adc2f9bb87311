-- ===== src/Tenants/Lifecycle.antt =====
-- The rows of tenants under `TenantsRepo.transition`
-- (src/admin_backend/repositories/tenants.py).
use cortex_cm.Base.{
  ◌≡◌, refl, sym, ◌∙◌, ap, ◌⊎◌, inl, inr, Bool, true, false, ◌&&◌, Option, none, some, List, arith,
  Text, find, update_where, Bool-cases, Option-cases, ==_iff, In, IsKey, In-update_where, find-In,
  find_sound,
}
use mathlib.Core.Path.{subst}
use cortex_cm.Result.{ok}
use cortex_cm.Models.Columns.{Uuid, Timestamp}
use cortex_cm.Models.Tenants.{Tenant, TenantStatus, suspended, terminated}
use cortex_cm.Models.ModuleAccess.{ModuleCode}
use cortex_cm.Auth.Context.{AuthContext}
use cortex_cm.Database.Tables.{Db}
use cortex_cm.Database.Session.{Session}
use cortex_cm.Database.Txn.{Txn, pure, ◌>>=◌, ◌>>◌, >>=-eq-ok}
use cortex_cm.Audit.Emit.{emit_audit_event-keeps}
use cortex_cm.Tenants.Transition.{
  Target, to_suspended, to_active, TransitionResult, TenantDetailRow, is_source, set_target,
  is_tenant, get_by_id_with_aggregates, emit_moved, move, transition,
}

abbrev is_suspended : TenantStatus → Bool
is_suspended suspended = true
is_suspended _ = false

abbrev is_terminated : TenantStatus → Bool
is_terminated terminated = true
is_terminated _ = false

abbrev pair_matches : Bool → Option Timestamp → Option Uuid → Bool
pair_matches true (some t) (some u) = true
pair_matches false none none = true
pair_matches _ _ _ = false

-- `ck_tenants_suspended_consistency` and `ck_tenants_terminated_consistency`
unfoldable pub status_consistent : Tenant → Bool
status_consistent t =
    pair_matches (is_suspended t.status) t.suspended_at t.suspended_by_user_id
    && pair_matches (is_terminated t.status) t.terminated_at t.terminated_by_user_id

set_target-status_consistent :
    (target : Target) (actor : Uuid) (db : Db) (t : Tenant)
    → is_source target t.status ≡ true
    → status_consistent t ≡ true
    → status_consistent (set_target target actor db t) ≡ true
unfolding status_consistent is_source
set_target-status_consistent to_suspended actor db t allowed h = ground arith
set_target-status_consistent to_active actor db t allowed h = ground arith

answered : {A : Type 0} {x y : A} {db db' : Db} → pure x db ≡ ok (y, db') → (y ≡ x) × (db' ≡ db)
answered h = (sym (ground arith), sym (ground arith))

module _ (named : List ModuleCode → List (Text × Text)) (sort_names : List Text → List Text)
    (s : Session) (id actor : Uuid) (target : Target) where
  abbrev pub updated : Db → List Tenant
  updated db = update_where (is_tenant s id) (set_target target actor db) db.tenants

  emit_moved-keeps :
      (now : TenantStatus) (a : Option AuthContext) (rid : Option Uuid)
      (row : Option TenantDetailRow) (db : Db) {db' : Db}
      → emit_moved named sort_names s id target now a rid row db ≡ ok (tt, db')
      → db'.tenants ≡ db.tenants
  emit_moved-keeps now none none row db h = ground arith
  emit_moved-keeps now (some a) none row db h = absurd (cc)
  emit_moved-keeps now none (some r) row db h = absurd (cc)
  emit_moved-keeps now (some a) (some r) none db h = ground arith
  emit_moved-keeps now (some a) (some r) (some row) db h =
      let (nodes, stores, tenants) = emit_audit_event-keeps sort_names s a _ db h in tenants

  move-ok :
      (now : TenantStatus) (a : Option AuthContext) (rid : Option Uuid) (db : Db)
      {x : Option TenantDetailRow × TransitionResult} {db' : Db}
      → move named sort_names s id target actor a rid now db ≡ ok (x, db')
      → (x.1 ≡ TransitionResult.moved) × (db'.tenants ≡ updated db)
  move-ok now a rid db {x} {db'} h =
      let db1 : Db = record db { tenants = updated db } in
      let report : Option TenantDetailRow → Txn (Option TenantDetailRow × TransitionResult) = λ row.
        emit_moved named sort_names s id target now a rid row
        >> pure (row, TransitionResult.moved) in
      let h1 : (get_by_id_with_aggregates named s id >>= report) db1 ≡ ok (x, db') = h in
      let (row, db2, read, h2) = >>=-eq-ok (get_by_id_with_aggregates named s id) report db1 h1 in
      let (u, db3, emitted, h3) =
        >>=-eq-ok (emit_moved named sort_names s id target now a rid row)
          (λ _. pure (row, TransitionResult.moved)) db2 h2 in
      let kept : db3.tenants ≡ db2.tenants = emit_moved-keeps now a rid row db2 emitted in
      let as_read : db2 ≡ db1 = sym (ground arith) in
      let last : db' ≡ db3 = sym (ground arith) in
      (ground arith, ap (λ (d : Db). d.tenants) last ∙ kept ∙ ap (λ (d : Db). d.tenants) as_read)

  -- A tenant's transition that returns has one of three outcomes. No visible tenant: `NOT_FOUND`,
  -- nothing changed. A status that is no source of the target: `INVALID_STATE`, nothing changed. Else
  -- `OK`, and the table of tenants is updated in the rows with the id and in no other.
  pub transition_outcomes :
      (a : Option AuthContext) (rid : Option Uuid) (db : Db)
      (x : Option TenantDetailRow × TransitionResult) (db' : Db)
      → transition named sort_names s id target actor a rid db ≡ ok (x, db')
      → ((find (is_tenant s id) db.tenants ≡ none)
          × (x ≡ (none, TransitionResult.not_found))
          × (db' ≡ db))
        ⊎ ((t : Tenant) × (find (is_tenant s id) db.tenants ≡ some t)
            × (((is_source target t.status ≡ false)
                  × (x ≡ (none, TransitionResult.invalid_state))
                  × (db' ≡ db))
                ⊎ ((is_source target t.status ≡ true)
                    × (x.1 ≡ TransitionResult.moved)
                    × (db'.tenants ≡ updated db))))
  unfolding transition
  transition_outcomes a rid db x db' h = elim (Option-cases (find (is_tenant s id) db.tenants)) [
    | inl e ↦ let (q, same) = answered (rw e at h) in inl (e, q, same)
    | inr (t, e) ↦ inr (
      t,
      e,
      elim (Bool-cases (is_source target t.status)) [
        | inl q ↦
            let (is_moved, tenants) = move-ok t.status a rid db (rw (e, q) at h) in
            inr (q, is_moved, tenants)
        | inr q ↦ let (r, same) = answered (rw (e, q) at h) in inl (q, r, same)
      ],
    )
  ]

  -- A tenant's transition that returns keeps the checks of the table: where ids are keys and each
  -- tenant's suspension and termination columns are all set or all null as its status says, they are
  -- so afterwards.
  pub transition-status_consistent :
      (a : Option AuthContext) (rid : Option Uuid) (db : Db)
      (x : Option TenantDetailRow × TransitionResult) (db' : Db)
      → IsKey (λ (t : Tenant). some t.id) db.tenants
      → ((t : Tenant) → In t db.tenants → status_consistent t ≡ true)
      → transition named sort_names s id target actor a rid db ≡ ok (x, db')
      → (t : Tenant) → In t db'.tenants
      → status_consistent t ≡ true
  transition-status_consistent a rid db x db' key consistent h t' i =
      elim (transition_outcomes a rid db x db' h) [
        | inl (e, q, same) ↦ consistent t' (subst (λ (d : Db). In t' d.tenants) same i)
        | inr (t, e, outcome) ↦ elim outcome [
          | inl (q, r, same) ↦ consistent t' (subst (λ (d : Db). In t' d.tenants) same i)
          | inr (q, r, tenants) ↦ after t e q t' (subst (In t') tenants i)
        ]
      ]
    where
      after :
          (t : Tenant)
          → find (is_tenant s id) db.tenants ≡ some t
          → is_source target t.status ≡ true
          → (t' : Tenant) → In t' (updated db)
          → status_consistent t' ≡ true
      after t e q t' i =
          let (m, im, c) =
            In-update_where (is_tenant s id) (set_target target actor db) db.tenants i in
          let it : In t db.tenants = find-In (is_tenant s id) db.tenants e in
          let is_it : is_tenant s id t ≡ true = find_sound (is_tenant s id) db.tenants e in
          elim c [
            | inl (p, r) ↦
                let same_id : m.id ≡ t.id = ground (arith, ==_iff m.id id, ==_iff t.id id) in
                let same : m ≡ t = key m t t.id im it (ap some same_id) refl in
                rw (r, same) (set_target-status_consistent target actor db t q (consistent t it))
            | inr (p, r) ↦ rw r (consistent m im)
          ]
