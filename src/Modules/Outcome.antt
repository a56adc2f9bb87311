-- ===== src/Modules/Outcome.antt =====
-- The outcomes of `ModulesAccessRepo.enable` and `ModulesAccessRepo.disable`
-- (src/admin_backend/repositories/modules_access.py).
use cortex_cm.Base.{
  ◌≡◌, refl, sym, ◌∙◌, ap, ◌⊎◌, inl, inr, true, false, not, Option, none, some, List, [], ◌∷◌,
  arith, Text, find, update_where, Bool-cases, Option-cases, ==_refl,
}
use mathlib.Core.Path.{subst}
use cortex_cm.Result.{ok}
use cortex_cm.Errors.{uncaught}
use cortex_cm.Models.Columns.{Uuid}
use cortex_cm.Models.ModuleAccess.{
  TenantModuleAccess, ModuleCode, ModuleAccessStatus, enabled, disabled,
}
use cortex_cm.Auth.Context.{AuthContext}
use cortex_cm.Database.Tables.{Db}
use cortex_cm.Database.Session.{Session, admits}
use cortex_cm.Database.Txn.{
  Txn, pure, throw, modify, ◌>>=◌, ◌>>◌, >>=-eq-ok, pure-eq-ok, after-throw_if, or_throw-eq-ok,
}
use cortex_cm.Modules.Rows.{
  is_refused, is_platform_user, new_access, add_access, set_enabled, set_disabled, is_access,
  has_id, select_for_update, refetch, insert_enabled, apply_transition,
}
use cortex_cm.Modules.Access.{
  TransitionResult, not_found, unset, enable_found, disable_found, is_unpaired, emit_changed,
  enable_status, disable_status, disable, enable, after_insert,
}
use cortex_cm.Audit.Keeps.{SameTables, SameTables-refl, emit_audit_event-SameTables}

module _ (s : Session) where
  refetch-ok :
      (i : Uuid) (db : Db) {row : TenantModuleAccess} {db' : Db}
      → refetch s i db ≡ ok (row, db')
      → (find (has_id s i) db.tenant_module_access ≡ some row) × (db' ≡ db)
  refetch-ok i db h = or_throw-eq-ok (find (has_id s i) db.tenant_module_access) _ h

  abbrev pub transitioned :
      (Uuid → Db → TenantModuleAccess → TenantModuleAccess) → Uuid → Uuid → Db → Db
  transitioned set actor i db = record db {
    tenant_module_access = update_where (has_id s i) (set actor db) db.tenant_module_access;
  }

  apply_transition-ok :
      (set : Uuid → Db → TenantModuleAccess → TenantModuleAccess) (actor : Uuid)
      (e : TenantModuleAccess) (db : Db) {row : TenantModuleAccess} {db' : Db}
      → apply_transition s set actor e db ≡ ok (row, db')
      → (find (has_id s e.id) (transitioned set actor e.id db).tenant_module_access ≡ some row)
        × (db' ≡ transitioned set actor e.id db)
  apply_transition-ok set actor e db {row} {db'} h =
      let next : Txn TenantModuleAccess = modify (transitioned set actor e.id) >> refetch s e.id in
      let (known, h1) = after-throw_if (not (is_platform_user db actor)) uncaught next db h in
      refetch-ok e.id (transitioned set actor e.id db) h1

-- Without settings no row is visible.
pub find-unset :
    (t : Uuid) (m : ModuleCode) (rs : List TenantModuleAccess)
    → find (is_access unset t m) rs ≡ none
unfolding admits
find-unset t m [] = refl
find-unset t m (r ∷ rs) = find-unset t m rs

module _ (module_label : ModuleCode → Option Text) (sort_names : List Text → List Text)
    (s : Session) (t : Uuid) (m : ModuleCode) (actor : Uuid) (a : Option AuthContext)
    (rid : Option Uuid) where
  emit_changed-SameTables :
      (a : Option AuthContext) (rid : Option Uuid) (before : Option ModuleAccessStatus)
      (after : ModuleAccessStatus) (row : TenantModuleAccess) (db : Db) {db' : Db}
      → emit_changed module_label sort_names s t m a rid before after row db ≡ ok (tt, db')
      → SameTables db db'
  emit_changed-SameTables (some a) (some rid) before after row db h =
      emit_audit_event-SameTables sort_names s a _ db h
  emit_changed-SameTables none none before after row db h =
      subst (SameTables db) (ground arith) (SameTables-refl db)
  emit_changed-SameTables none (some rid) before after row db h =
      subst (SameTables db) (ground arith) (SameTables-refl db)
  emit_changed-SameTables (some a) none before after row db h =
      subst (SameTables db) (ground arith) (SameTables-refl db)

  -- Reporting a row returns it.
  emitted-ok :
      {A : Type 0} (before : Option ModuleAccessStatus) (after : ModuleAccessStatus)
      (row : TenantModuleAccess) (x : A) (db : Db) {y : A} {db' : Db}
      → (emit_changed module_label sort_names s t m a rid before after row >> pure x) db
        ≡ ok (y, db')
      → (y ≡ x) × SameTables db db'
  emitted-ok before after row x db {y} {db'} h =
      let (u, db1, emitted, h1) =
        >>=-eq-ok (emit_changed module_label sort_names s t m a rid before after row) (λ _. pure x)
          db h in
      let (is_x, same) = pure-eq-ok h1 in
      (
        is_x,
        subst (SameTables db) (sym same)
            (emit_changed-SameTables a rid before after row db emitted),
      )

  -- The row `e` has been set, and read again.
  abbrev pub IsWritten :
      (Uuid → Db → TenantModuleAccess → TenantModuleAccess)
      → TenantModuleAccess
      → Db
      → TenantModuleAccess
      → Db
      → Type 0
  IsWritten set e db row db' =
      (find (has_id s e.id) db'.tenant_module_access ≡ some row)
      × SameTables (transitioned s set actor e.id db) db'

  set-ok :
      {A : Type 0} (set : Uuid → Db → TenantModuleAccess → TenantModuleAccess)
      (e : TenantModuleAccess) (before : Option ModuleAccessStatus) (after : ModuleAccessStatus)
      (answer : TenantModuleAccess → A) (db : Db) {y : A} {db' : Db}
      → (apply_transition s set actor e >>= λ row.
            emit_changed module_label sort_names s t m a rid before after row >> pure (answer row))
          db
        ≡ ok (y, db')
      → (row : TenantModuleAccess) × (y ≡ answer row) × IsWritten set e db row db'
  set-ok {A} set e before after answer db {y} {db'} h =
      let report : TenantModuleAccess → Txn A = λ row.
        emit_changed module_label sort_names s t m a rid before after row >> pure (answer row) in
      let (row, db1, applied, h1) = >>=-eq-ok (apply_transition s set actor e) report db h in
      let (found, same) = apply_transition-ok s set actor e db applied in
      let h2 : report row (transitioned s set actor e.id db) ≡ ok (y, db') =
        subst (λ d. report row d ≡ ok (y, db')) same h1 in
      let (is_answer, keeps) = emitted-ok before after row (answer row) _ h2 in
      (
        row,
        is_answer,
        (ap (λ rows. find (has_id s e.id) rows) keeps.tenant_module_access ∙ found, keeps),
      )

  -- The row that `enable` has inserted after the race.
  abbrev pub IsInserted : (Db → Db) → Db → TenantModuleAccess → Db → Type 0
  IsInserted race db row db' =
      (admits s t ≡ true)
      × (is_refused t m actor (race db) ≡ false)
      × (row ≡ new_access t m actor (race db))
      × SameTables (add_access (new_access t m actor (race db)) (race db)) db'

  -- The INSERT has either been refused, and all that has happened is the race, or has added the row.
  insert_enabled-ok :
      (race : Db → Db) (db : Db) {o : Option TenantModuleAccess} {db' : Db}
      → insert_enabled s race t m actor db ≡ ok (o, db')
      → ((o ≡ none) × (db' ≡ race db))
        ⊎ ((admits s t ≡ true)
            × (is_refused t m actor (race db) ≡ false)
            × (o ≡ some (new_access t m actor (race db)))
            × (db' ≡ add_access (new_access t m actor (race db)) (race db)))
  insert_enabled-ok race db {o} {db'} h = elim (Bool-cases (admits s t)) [
    | inr q ↦ absurd (ground arith)
    | inl q ↦ elim (Bool-cases (is_refused t m actor (race db))) [
      | inl r ↦ let h1 : pure none (race db) ≡ ok (o, db') = rw (q, r) at h in inl (pure-eq-ok h1)
      | inr r ↦
          let new = new_access t m actor (race db) in
          let seen : admits s new.tenant_id ≡ true = q in
          let h1 : pure (some new) (add_access new (race db)) ≡ ok (o, db') =
            rw (q, r, ==_refl (race db).next_id, seen) at h in
          let (is_new, same) = pure-eq-ok h1 in inr (q, r, is_new, same)
    ]
  ]

  -- What `enable` may have done. The row was there, and is enabled already or has been set; or it was
  -- not, and has been inserted.
  abbrev pub EnableOutcome : (Db → Db) → Db → TenantModuleAccess → Db → Type 0
  EnableOutcome race db row db' =
      ((e : TenantModuleAccess) × (find (is_access s t m) db.tenant_module_access ≡ some e)
        × (((e.status ≡ enabled)
              × (find (has_id s e.id) db.tenant_module_access ≡ some row)
              × (db' ≡ db))
            ⊎ ((e.status ≡ disabled) × IsWritten set_enabled e db row db')))
      ⊎ ((find (is_access s t m) db.tenant_module_access ≡ none) × IsInserted race db row db')

  enable_status-ok :
      (e : TenantModuleAccess) (now : ModuleAccessStatus) (db : Db) {row : TenantModuleAccess}
      {db' : Db}
      → enable_status module_label sort_names s t m actor a rid e now db ≡ ok (row, db')
      → ((now ≡ enabled) × (find (has_id s e.id) db.tenant_module_access ≡ some row) × (db' ≡ db))
        ⊎ ((now ≡ disabled) × IsWritten set_enabled e db row db')
  enable_status-ok e enabled db h =
      let (found, same) = refetch-ok s e.id db h in inl (refl, found, same)
  enable_status-ok e disabled db {row} {db'} h =
      let (r, same, set) = set-ok set_enabled e (some disabled) enabled (λ r. r) db h in
      inr (refl, rw same set)

  -- After the rollback nothing is visible, and the error goes on.
  after_insert-ok :
      (o : Option TenantModuleAccess) (db : Db) {row : TenantModuleAccess} {db' : Db}
      → after_insert module_label sort_names s t m actor a rid o db ≡ ok (row, db')
      → (o ≡ some row) × SameTables db db'
  after_insert-ok none db {row} {db'} h =
      let failed : throw {A = TenantModuleAccess} uncaught db ≡ ok (row, db') =
        rw (find-unset t m db.tenant_module_access) at h in
      absurd (cc)
  after_insert-ok (some r) db h =
      let (same, keeps) = emitted-ok none enabled r r db h in (ap some (sym same), keeps)

  -- `enable` that returns has found the request's identity and id both given or both missing, and has
  -- had one of three outcomes.
  pub enable_outcomes :
      (race : Db → Db) (db : Db) (row : TenantModuleAccess) (db' : Db)
      → enable module_label sort_names s race t m actor a rid db ≡ ok (row, db')
      → (is_unpaired a rid ≡ false) × EnableOutcome race db row db'
  unfolding enable
  enable_outcomes race db row db' h =
      let next : Txn TenantModuleAccess = select_for_update s t m >>= λ existing.
      enable_found module_label sort_names s race t m actor a rid existing in
      let (paired, h1) = after-throw_if (is_unpaired a rid) uncaught next db h in
      (
        paired,
        elim (Option-cases (find (is_access s t m) db.tenant_module_access)) [
          | inr (e, q) ↦ inl (e, q, enable_status-ok e e.status db (rw q at h1))
          | inl q ↦ inr (q, inserted (rw q at h1))
        ],
      )
    where
      inserted :
          enable_found module_label sort_names s race t m actor a rid none db ≡ ok (row, db')
          → IsInserted race db row db'
      inserted h =
          let (o, db1, tried, h1) =
            >>=-eq-ok (insert_enabled s race t m actor)
              (after_insert module_label sort_names s t m actor a rid) db h in
          let (is_row, keeps) = after_insert-ok o db1 h1 in
          elim (insert_enabled-ok race db tried) [
            | inl (q, same) ↦ absurd (cc)
            | inr (seen, accepted, new, same) ↦
                (seen, accepted, ground arith, subst (λ d. SameTables d db') same keeps)
          ]

  -- What `disable` may have done. No row: `NOT_FOUND`, nothing changed. A disabled row: `OK`, nothing
  -- changed. An enabled row: `OK`, it has been set.
  abbrev pub DisableOutcome : Db → Option TenantModuleAccess × TransitionResult → Db → Type 0
  DisableOutcome db x db' =
      ((find (is_access s t m) db.tenant_module_access ≡ none)
        × (x ≡ (none, not_found))
        × (db' ≡ db))
      ⊎ ((e : TenantModuleAccess) × (row : TenantModuleAccess) × (find (is_access s t m)
              db.tenant_module_access
            ≡ some e)
          × (x ≡ (some row, TransitionResult.ok))
          × (((e.status ≡ disabled)
                × (find (has_id s e.id) db.tenant_module_access ≡ some row)
                × (db' ≡ db))
              ⊎ ((e.status ≡ enabled) × IsWritten set_disabled e db row db')))

  disable_status-ok :
      (e : TenantModuleAccess) (now : ModuleAccessStatus) (db : Db)
      {x : Option TenantModuleAccess × TransitionResult} {db' : Db}
      → disable_status module_label sort_names s t m actor a rid e now db ≡ ok (x, db')
      → (row : TenantModuleAccess) × (x ≡ (some row, TransitionResult.ok))
        × (((now ≡ disabled)
              × (find (has_id s e.id) db.tenant_module_access ≡ some row)
              × (db' ≡ db))
            ⊎ ((now ≡ enabled) × IsWritten set_disabled e db row db'))
  disable_status-ok e enabled db h =
      let (row, is_x, set) =
        set-ok set_disabled e (some enabled) disabled (λ r. (some r, TransitionResult.ok)) db h in
      (row, is_x, inr (refl, set))
  disable_status-ok e disabled db h =
      let (row, db1, read, h1) =
        >>=-eq-ok (refetch s e.id) (λ row. pure (some row, TransitionResult.ok)) db h in
      let (found, same) = refetch-ok s e.id db read in
      let (is_x, still) = pure-eq-ok h1 in (row, is_x, inl (refl, found, still ∙ same))

  -- `disable` that returns has found the request's identity and id both given or both missing, and
  -- has had one of three outcomes.
  pub disable_outcomes :
      (db : Db) (x : Option TenantModuleAccess × TransitionResult) (db' : Db)
      → disable module_label sort_names s t m actor a rid db ≡ ok (x, db')
      → (is_unpaired a rid ≡ false) × DisableOutcome db x db'
  unfolding disable
  disable_outcomes db x db' h =
      let next : Txn (Option TenantModuleAccess × TransitionResult) =
        select_for_update s t m >>= λ existing.
        disable_found module_label sort_names s t m actor a rid existing in
      let (paired, h1) = after-throw_if (is_unpaired a rid) uncaught next db h in
      (
        paired,
        elim (Option-cases (find (is_access s t m) db.tenant_module_access)) [
          | inl q ↦ let (is_x, same) = pure-eq-ok (rw q at h1) in inl (q, is_x, same)
          | inr (e, q) ↦
              let (row, is_x, done) = disable_status-ok e e.status db (rw q at h1) in
              inr (e, row, q, is_x, done)
        ],
      )
