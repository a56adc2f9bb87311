-- ===== src/Modules/Effect.antt =====
-- What the calls of `ModulesAccessRepo.enable` and `ModulesAccessRepo.disable`
-- (src/admin_backend/repositories/modules_access.py) bring about: what a second call does, and the
-- answer of the permission check.
use cortex_cm.Base.{
  ◌≡◌, refl, ◌∙◌, ap, inl, inr, true, false, Option, none, some, List, arith, Text, find,
  Bool-cases, and-split, find_sound,
}
use cortex_cm.Result.{ok, raise}
use cortex_cm.Errors.{uncaught}
use cortex_cm.Models.Columns.{Uuid}
use cortex_cm.Models.TenantUsers.{tenant}
use cortex_cm.Models.ModuleAccess.{
  TenantModuleAccess, ModuleCode, ModuleAccessStatus, enabled, disabled,
}
use cortex_cm.Auth.Context.{AuthContext, is_valid_context}
use cortex_cm.Database.Tables.{Db}
use cortex_cm.Database.Session.{Session, admits, session_of}
use cortex_cm.Models.Permissions.{Permission}
use cortex_cm.Permission.Catalogue.{is_enabled, module_eq, module_eq_sound}
use cortex_cm.Permission.Resolve.{Request, is_requested, is_requested_by, has_permission}
use cortex_cm.Permission.Isolation.{has_permission_own_tenant}
use cortex_cm.Modules.Rows.{is_refused, is_access, refetch}
use cortex_cm.Database.Txn.{pure, ◌>>=◌}
use cortex_cm.Modules.Access.{
  enable_status, disable_status, TransitionResult, is_unpaired, enable, disable,
}
use cortex_cm.Modules.Outcome.{find-unset}
use cortex_cm.Modules.Invariant.{IsSoundDb}
use cortex_cm.Modules.Reachable.{disable-IsSound}
use cortex_cm.Modules.Shows.{pair_is, enable-Shows, disable-Shows}

module _ (module_label : ModuleCode → Option Text) (sort_names : List Text → List Text)
    (s : Session) (t : Uuid) (m : ModuleCode) where
  enable_status-enabled :
      (actor : Uuid) (a : Option AuthContext) (rid : Option Uuid) (e : TenantModuleAccess)
      (now : ModuleAccessStatus) (db : Db)
      → now ≡ enabled
      → enable_status module_label sort_names s t m actor a rid e now db ≡ refetch s e.id db
  enable_status-enabled actor a rid e now db on = rw on refl

  disable_status-disabled :
      (actor : Uuid) (a : Option AuthContext) (rid : Option Uuid) (e : TenantModuleAccess)
      (now : ModuleAccessStatus) (db : Db)
      → now ≡ disabled
      → disable_status module_label sort_names s t m actor a rid e now db
        ≡ (refetch s e.id >>= λ row. pure (some row, TransitionResult.ok)) db
  disable_status-disabled actor a rid e now db off = rw off refl

  -- Enabling again changes nothing. After a call of `enable` on a sound table that returns, another,
  -- by any actor, returns the same row and leaves the whole database as it is: it writes no audit row.
  pub enable-again :
      (actor actor' : Uuid) (a a' : Option AuthContext) (rid rid' : Option Uuid)
      (race race' : Db → Db) (db : Db) (row : TenantModuleAccess) (db' : Db)
      → IsSoundDb db
      → IsSoundDb (race db)
      → is_unpaired a' rid' ≡ false
      → enable module_label sort_names s race t m actor a rid db ≡ ok (row, db')
      → enable module_label sort_names s race' t m actor' a' rid' db' ≡ ok (row, db')
  unfolding enable
  enable-again actor actor' a a' rid rid' race race' db row db' sound raced paired h =
      let (on, shows) =
        enable-Shows module_label sort_names s t m actor a rid race db row db' sound raced h in
      rw
        (
          paired,
          shows.by_pair,
          enable_status-enabled actor' a' rid' row row.status db' on,
          shows.by_id,
        )
        refl

  -- Disabling again changes nothing. After a call of `disable` on a sound table that answers `OK`,
  -- another, by any actor, gives the same answer and leaves the whole database as it is.
  pub disable-again :
      (actor actor' : Uuid) (a a' : Option AuthContext) (rid rid' : Option Uuid) (db : Db)
      (row : TenantModuleAccess) (db' : Db)
      → IsSoundDb db
      → is_unpaired a' rid' ≡ false
      → disable module_label sort_names s t m actor a rid db
        ≡ ok ((some row, TransitionResult.ok), db')
      → disable module_label sort_names s t m actor' a' rid' db'
        ≡ ok ((some row, TransitionResult.ok), db')
  unfolding disable
  disable-again actor actor' a a' rid rid' db row db' sound paired h =
      let (off, shows) =
        disable-Shows module_label sort_names s t m actor a rid db row db' sound h in
      rw
        (
          paired,
          shows.by_pair,
          disable_status-disabled actor' a' rid' row row.status db' off,
          shows.by_id,
        )
        refl

  -- A call of `enable` that loses the race for the INSERT fails. Where no row is visible for the
  -- tenant and the module, the session may write rows of the tenant, and what others have committed by
  -- then makes the table refuse the row, the error escapes, whatever they have committed.
  pub enable_race :
      (actor : Uuid) (a : Option AuthContext) (rid : Option Uuid) (race : Db → Db) (db : Db)
      → is_unpaired a rid ≡ false
      → find (is_access s t m) db.tenant_module_access ≡ none
      → admits s t ≡ true
      → is_refused t m actor (race db) ≡ true
      → enable module_label sort_names s race t m actor a rid db ≡ raise uncaught
  unfolding enable
  enable_race actor a rid race db paired absent seen refused =
      rw (paired, absent, seen, refused, find-unset t m (race db).tenant_module_access) refl

is_requested-module :
    (q : Request) (p : Permission) → is_requested_by q p ≡ true → p.module_code ≡ q.module_code
unfolding is_requested
is_requested-module q p h =
    module_eq_sound p.module_code q.module_code
      (and-split (module_eq p.module_code q.module_code) _ h).0

-- Disabling a module closes it to the tenant's users. After a call of `disable` on a sound table that
-- answers `OK`, by any session, the permission check refuses every request on the module by a valid
-- caller of the tenant, whatever the caller's roles are and wherever the target is.
pub disable-closes :
    (module_label : ModuleCode → Option Text) (sort_names : List Text → List Text) (s : Session)
    (t : Uuid) (m : ModuleCode) (actor : Uuid) (a : Option AuthContext) (rid : Option Uuid)
    (db : Db) (row : TenantModuleAccess) (db' : Db) (caller : AuthContext) (q : Request)
    (target : Option Text)
    → IsSoundDb db
    → disable module_label sort_names s t m actor a rid db
      ≡ ok ((some row, TransitionResult.ok), db')
    → is_valid_context caller ≡ true
    → caller.user_type ≡ tenant
    → caller.tenant_id ≡ some t
    → q.module_code ≡ m
    → (has_permission (session_of caller) db' caller q target).0 ≡ false
disable-closes module_label sort_names s t m actor a rid db row db' caller q target sound h valid
      type own code =
    elim (Bool-cases (has_permission (session_of caller) db' caller q target).0) [
      | inr refused ↦ refused
      | inl granted ↦
          let (g, e1, e2, e3) = has_permission_own_tenant db' caller q target valid type granted in
          let sound' = disable-IsSound module_label sort_names s t m actor a rid db _ db' sound h in
          let (off, shows) =
            disable-Shows module_label sort_names s t m actor a rid db row db' sound h in
          let same_module : g.row.tma.module_code ≡ m =
            module_eq_sound g.row.tma.module_code g.row.p.module_code g.is_row.same_module
            ∙ is_requested-module q g.row.p g.requested
            ∙ code in
          let same_tenant : g.row.tma.tenant_id ≡ t = ground arith in
          let same : g.row.tma ≡ row =
            sound'.pair_key g.row.tma row (t, m) g.is_row.has_entitlement shows.is_row
              (rw (same_tenant, same_module) refl)
              (pair_is s t m row
                (find_sound (is_access s t m) db'.tenant_module_access shows.by_pair)) in
          let closed : g.row.tma.status ≡ disabled =
            ap (λ (r : TenantModuleAccess). r.status) same ∙ off in
          let not_enabled : is_enabled g.row.tma.status ≡ false = ap is_enabled closed in
          let open_ = g.module_enabled in absurd (cc)
    ]
