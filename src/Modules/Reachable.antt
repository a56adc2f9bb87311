-- ===== src/Modules/Reachable.antt =====
-- The tables of module access that calls of `ModulesAccessRepo.enable` and
-- `ModulesAccessRepo.disable` (src/admin_backend/repositories/modules_access.py) lead to.
use cortex_cm.Base.{◌≡◌, refl, sym, inl, inr, ◌≤◌, true, Option, List, Text}
use mathlib.Core.Path.{subst}
use cortex_cm.Result.{ok}
use cortex_cm.Models.Columns.{Uuid}
use cortex_cm.Models.ModuleAccess.{TenantModuleAccess, ModuleCode}
use cortex_cm.Auth.Context.{AuthContext}
use cortex_cm.Database.Tables.{Db}
use cortex_cm.Database.Session.{Session}
use cortex_cm.Modules.Rows.{new_access, add_access, set_enabled, set_disabled}
use cortex_cm.Modules.Access.{TransitionResult, enable, disable}
use cortex_cm.Modules.Outcome.{transitioned, IsWritten, enable_outcomes, disable_outcomes}
use cortex_cm.Modules.Invariant.{
  IsSoundDb, IsSetter, disabled_consistent, set_enabled-IsSetter, set_disabled-IsSetter,
  later-IsSound, set-IsSound, cons-IsSound, is_refused-false,
}

-- A table that another part of the program has left as it was.
pub IsSoundDb-same :
    (db db' : Db)
    → IsSoundDb db
    → db'.tenant_module_access ≡ db.tenant_module_access
    → db.next_id ≤ db'.next_id
    → IsSoundDb db'
IsSoundDb-same db db' sound e le =
    rw e (later-IsSound db.tenant_module_access db.next_id sound db'.next_id le)

new_access-consistent :
    (t : Uuid) (m : ModuleCode) (actor : Uuid) (db : Db)
    → disabled_consistent (new_access t m actor db) ≡ true
unfolding disabled_consistent
new_access-consistent t m actor db = refl

module _ (module_label : ModuleCode → Option Text) (sort_names : List Text → List Text)
    (s : Session) (t : Uuid) (m : ModuleCode) (actor : Uuid) (a : Option AuthContext)
    (rid : Option Uuid) where
  set_row-IsSound :
      (set : Uuid → Db → TenantModuleAccess → TenantModuleAccess) (e row : TenantModuleAccess)
      (db db' : Db)
      → IsSetter (set actor db)
      → IsSoundDb db
      → IsWritten module_label sort_names s t m actor a rid set e db row db'
      → IsSoundDb db'
  set_row-IsSound set e row db db' setter sound (found, keeps) =
      IsSoundDb-same (transitioned s set actor e.id db) db'
        (set-IsSound db.tenant_module_access db.next_id sound _ (set actor db) setter)
        keeps.tenant_module_access keeps.next_id

  -- Enabling a module keeps the table sound, if the transactions that it may race with do.
  pub enable-IsSound :
      (race : Db → Db) (db : Db) (row : TenantModuleAccess) (db' : Db)
      → IsSoundDb db
      → IsSoundDb (race db)
      → enable module_label sort_names s race t m actor a rid db ≡ ok (row, db')
      → IsSoundDb db'
  enable-IsSound race db row db' sound raced h =
      elim (enable_outcomes module_label sort_names s t m actor a rid race db row db' h).1 [
        | inl (e, q, inl (on, found, same)) ↦ subst IsSoundDb (sym same) sound
        | inl (e, q, inr (off, set)) ↦
            set_row-IsSound set_enabled e row db db' (set_enabled-IsSetter actor db) sound set
        | inr (q, (seen, accepted, is_row, keeps)) ↦
            IsSoundDb-same (add_access (new_access t m actor (race db)) (race db)) db'
              (cons-IsSound (race db).tenant_module_access (race db).next_id raced
                (new_access t m actor (race db)) refl
                (is_refused-false t m actor (race db) accepted)
                (new_access-consistent t m actor (race db)))
              keeps.tenant_module_access keeps.next_id
      ]

  -- Disabling a module keeps the table sound.
  pub disable-IsSound :
      (db : Db) (x : Option TenantModuleAccess × TransitionResult) (db' : Db)
      → IsSoundDb db
      → disable module_label sort_names s t m actor a rid db ≡ ok (x, db')
      → IsSoundDb db'
  disable-IsSound db x db' sound h =
      elim (disable_outcomes module_label sort_names s t m actor a rid db x db' h).1 [
        | inl (q, is_x, same) ↦ subst IsSoundDb (sym same) sound
        | inr (e, row, q, is_x, inl (off, found, same)) ↦ subst IsSoundDb (sym same) sound
        | inr (e, row, q, is_x, inr (on, set)) ↦
            set_row-IsSound set_disabled e row db db' (set_disabled-IsSetter actor db) sound set
      ]

module _ (module_label : ModuleCode → Option Text) (sort_names : List Text → List Text) where
  -- Committed calls, one after the other, by any callers. `race` is what others have committed
  -- before the INSERT of a call, itself by such calls.
  pub data Reaches (start : Db) : Db → Type 0 where
    begin : Reaches start start
    elsewhere :
        {db : Db} (db' : Db)
        → Reaches start db
        → db'.tenant_module_access ≡ db.tenant_module_access
        → db.next_id ≤ db'.next_id
        → Reaches start db'
    enabling :
        {db : Db} (s : Session) (race : Db → Db) (t : Uuid) (m : ModuleCode) (actor : Uuid)
        (a : Option AuthContext) (rid : Option Uuid) (row : TenantModuleAccess) (db' : Db)
        → Reaches start db
        → Reaches start (race db)
        → enable module_label sort_names s race t m actor a rid db ≡ ok (row, db')
        → Reaches start db'
    disabling :
        {db : Db} (s : Session) (t : Uuid) (m : ModuleCode) (actor : Uuid) (a : Option AuthContext)
        (rid : Option Uuid) (x : Option TenantModuleAccess × TransitionResult) (db' : Db)
        → Reaches start db
        → disable module_label sort_names s t m actor a rid db ≡ ok (x, db')
        → Reaches start db'

  -- Every table that committed calls of `enable` and `disable` lead to, races included, is sound if
  -- the first was: tenant and module are a key, so is the id, the next id is new, and both disabled
  -- columns are set in a disabled row and null in an enabled one.
  pub reachable-IsSound : (start db : Db) → IsSoundDb start → Reaches start db → IsSoundDb db
  reachable-IsSound start db sound begin = sound
  reachable-IsSound start db sound (elsewhere {db = before} db' r e le) =
      IsSoundDb-same before db (reachable-IsSound start before sound r) e le
  reachable-IsSound start db sound (enabling {db = before} s race t m actor a rid row db' r r' h) =
      enable-IsSound module_label sort_names s t m actor a rid race before row db
        (reachable-IsSound start before sound r) (reachable-IsSound start (race before) sound r') h
  reachable-IsSound start db sound (disabling {db = before} s t m actor a rid x db' r h) =
      disable-IsSound module_label sort_names s t m actor a rid before x db
        (reachable-IsSound start before sound r) h
