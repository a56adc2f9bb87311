-- ===== src/Modules/Shows.antt =====
-- What the calls of `ModulesAccessRepo.enable` and `ModulesAccessRepo.disable`
-- (src/admin_backend/repositories/modules_access.py) leave behind: the row that the table shows.
use cortex_cm.Base.{
  ◌≡◌, refl, sym, ◌∙◌, ap, inl, inr, true, Option, some, List, arith, Text, find, update_where,
  ==_iff, ==_refl, and-join, and-split, In, here, In-update_where, find-In, find_sound, find_unique,
  ◌==◌,
}
use mathlib.Core.Path.{subst}
use cortex_cm.Result.{ok}
use cortex_cm.Models.Columns.{Uuid}
use cortex_cm.Models.ModuleAccess.{TenantModuleAccess, ModuleCode, enabled, disabled}
use cortex_cm.Auth.Context.{AuthContext}
use cortex_cm.Database.Tables.{Db}
use cortex_cm.Database.Session.{Session, admits}
use cortex_cm.Permission.Catalogue.{module_eq_sound, module_eq_refl}
use cortex_cm.Modules.Rows.{new_access, set_enabled, set_disabled, is_access, has_id}
use cortex_cm.Modules.Access.{TransitionResult, enable, disable}
use cortex_cm.Modules.Outcome.{IsWritten, enable_outcomes, disable_outcomes}
use cortex_cm.Modules.Invariant.{
  IsSoundDb, IsSetter, pair_of, set_enabled-IsSetter, set_disabled-IsSetter,
}
use cortex_cm.Modules.Reachable.{enable-IsSound, disable-IsSound}

-- The row is what the session sees for the tenant and the module, and for the row's id.
pub record Shows (s : Session) (t : Uuid) (m : ModuleCode) (row : TenantModuleAccess)
    (rs : List TenantModuleAccess) : Type 0 where
  pub is_row : In row rs
  pub by_pair : find (is_access s t m) rs ≡ some row
  pub by_id : find (has_id s row.id) rs ≡ some row

module _ (s : Session) (t : Uuid) (m : ModuleCode) where
  pub pair_is : (y : TenantModuleAccess) → is_access s t m y ≡ true → pair_of y ≡ some (t, m)
  pair_is y fits =
      let (seen, pair) = and-split (admits s y.tenant_id) _ fits in
      let (own, code) = and-split (y.tenant_id == t) _ pair in
      rw ((==_iff y.tenant_id t).0 own, module_eq_sound y.module_code m code) refl

  -- In a sound table a row is shown if it is there and fits.
  shown :
      (db : Db) (row : TenantModuleAccess)
      → IsSoundDb db
      → In row db.tenant_module_access
      → is_access s t m row ≡ true
      → Shows s t m row db.tenant_module_access
  shown db row sound i fits =
      let (seen, pair) = and-split (admits s row.tenant_id) _ fits in
      let (own, code) = and-split (row.tenant_id == t) _ pair in
      record {
        is_row = i;
        by_pair =
            find_unique (is_access s t m) i fits
              (λ y j fits'. sound.pair_key y row (t, m) j i (pair_is y fits') (pair_is row fits));
        by_id = find_unique (has_id s row.id) i (and-join seen (==_refl row.id)) (λ y j same.
            sound.id_key y row row.id j i
              (ap some ((==_iff y.id row.id).0 (and-split (admits s y.tenant_id) _ same).1)) refl);
      }

  -- The row that an UPDATE by the id of `e` has written is `e` with the new columns.
  set-row :
      (db : Db) (set : TenantModuleAccess → TenantModuleAccess) (e row : TenantModuleAccess)
      → IsSoundDb db
      → IsSetter set
      → find (is_access s t m) db.tenant_module_access ≡ some e
      → find (has_id s e.id) (update_where (has_id s e.id) set db.tenant_module_access) ≡ some row
      → (row ≡ set e) × (is_access s t m row ≡ true)
  set-row db set e row sound setter f found =
      let rs = db.tenant_module_access in
      let (x, ix, c) =
        In-update_where (has_id s e.id) set rs
          (find-In (has_id s e.id) (update_where (has_id s e.id) set rs) found) in
      let hit : has_id s e.id row ≡ true =
        find_sound (has_id s e.id) (update_where (has_id s e.id) set rs) found in
      elim c [
        | inr (q, r) ↦
            let clash : has_id s e.id x ≡ true = subst (λ z. has_id s e.id z ≡ true) r hit in
            absurd (cc)
        | inl (q, r) ↦
            let same_id : x.id ≡ e.id =
              (==_iff x.id e.id).0 (and-split (admits s x.tenant_id) _ q).1 in
            let same : x ≡ e =
              sound.id_key x e e.id ix (find-In (is_access s t m) rs f) (ap some same_id) refl in
            (
              r ∙ ap set same,
              rw (r, same, setter.same_tenant e, setter.same_module e)
                  (find_sound (is_access s t m) rs f),
            )
      ]

module _ (module_label : ModuleCode → Option Text) (sort_names : List Text → List Text)
    (s : Session) (t : Uuid) (m : ModuleCode) (actor : Uuid) (a : Option AuthContext)
    (rid : Option Uuid) where
  set-Shows :
      (set : Uuid → Db → TenantModuleAccess → TenantModuleAccess) (e row : TenantModuleAccess)
      (db db' : Db)
      → IsSetter (set actor db)
      → IsSoundDb db
      → IsSoundDb db'
      → find (is_access s t m) db.tenant_module_access ≡ some e
      → IsWritten module_label sort_names s t m actor a rid set e db row db'
      → (row ≡ set actor db e) × Shows s t m row db'.tenant_module_access
  set-Shows set e row db db' setter sound sound' f (found, keeps) =
      let rows = keeps.tenant_module_access in
      let found' : find (has_id s e.id)
            (update_where (has_id s e.id) (set actor db) db.tenant_module_access)
          ≡ some row =
        ap (λ rs. find (has_id s e.id) rs) (sym rows) ∙ found in
      let (is_set, fits) = set-row s t m db (set actor db) e row sound setter f found' in
      (is_set, shown s t m db' row sound' (find-In (has_id s e.id) _ found) fits)

  unchanged-Shows :
      (e row : TenantModuleAccess) (db : Db)
      → IsSoundDb db
      → find (is_access s t m) db.tenant_module_access ≡ some e
      → find (has_id s e.id) db.tenant_module_access ≡ some row
      → (row ≡ e) × Shows s t m row db.tenant_module_access
  unchanged-Shows e row db sound f found =
      let rs = db.tenant_module_access in
      let hit : has_id s e.id row ≡ true = find_sound (has_id s e.id) rs found in
      let same_id : row.id ≡ e.id =
        (==_iff row.id e.id).0 (and-split (admits s row.tenant_id) _ hit).1 in
      let same : row ≡ e =
        sound.id_key row e e.id (find-In (has_id s e.id) rs found) (find-In (is_access s t m) rs f)
          (ap some same_id) refl in
      (
        same,
        shown s t m db row sound (find-In (has_id s e.id) rs found)
            (rw same (find_sound (is_access s t m) rs f)),
      )

  -- After a call of `enable` that returns, the row it returns is enabled, has no disabled columns, and
  -- is the one the session sees for the tenant and the module, in a sound table.
  pub enable-Shows :
      (race : Db → Db) (db : Db) (row : TenantModuleAccess) (db' : Db)
      → IsSoundDb db
      → IsSoundDb (race db)
      → enable module_label sort_names s race t m actor a rid db ≡ ok (row, db')
      → (row.status ≡ enabled) × Shows s t m row db'.tenant_module_access
  enable-Shows race db row db' sound raced h =
      let sound' =
        enable-IsSound module_label sort_names s t m actor a rid race db row db' sound raced h in
      elim (enable_outcomes module_label sort_names s t m actor a rid race db row db' h).1 [
        | inl (e, q, inl (on, found, same)) ↦
            let (is_e, shows) = unchanged-Shows e row db sound q found in
            (
              ap (λ (r : TenantModuleAccess). r.status) is_e ∙ on,
              subst (λ (d : Db). Shows s t m row d.tenant_module_access) (sym same) shows,
            )
        | inl (e, q, inr (off, set)) ↦
            let (is_set, shows) =
              set-Shows set_enabled e row db db' (set_enabled-IsSetter actor db) sound sound' q
                set in
            (ap (λ (r : TenantModuleAccess). r.status) is_set, shows)
        | inr (q, (seen, accepted, is_row, keeps)) ↦
            let new = new_access t m actor (race db) in
            let there_is : In new db'.tenant_module_access = rw keeps.tenant_module_access here in
            let fits : is_access s t m new ≡ true =
              and-join seen (and-join (==_refl t) (module_eq_refl m)) in
            rw is_row (refl, shown s t m db' new sound' there_is fits)
      ]

  -- After a call of `disable` that answers `OK`, the row it returns is disabled, and is the one the
  -- session sees for the tenant and the module, in a sound table.
  pub disable-Shows :
      (db : Db) (row : TenantModuleAccess) (db' : Db)
      → IsSoundDb db
      → disable module_label sort_names s t m actor a rid db
        ≡ ok ((some row, TransitionResult.ok), db')
      → (row.status ≡ disabled) × Shows s t m row db'.tenant_module_access
  disable-Shows db row db' sound h =
      let sound' = disable-IsSound module_label sort_names s t m actor a rid db _ db' sound h in
      elim (disable_outcomes module_label sort_names s t m actor a rid db _ db' h).1 [
        | inl (q, is_x, same) ↦ absurd (cc)
        | inr (e, r, q, is_x, inl (off, found, same)) ↦
            let is_r : r ≡ row = sym (ground arith) in
            let (is_e, shows) = unchanged-Shows e row db sound q (found ∙ ap some is_r) in
            (
              ap (λ (r : TenantModuleAccess). r.status) is_e ∙ off,
              subst (λ (d : Db). Shows s t m row d.tenant_module_access) (sym same) shows,
            )
        | inr (e, r, q, is_x, inr (on, set)) ↦
            let is_r : r ≡ row = sym (ground arith) in
            let (is_set, shows) =
              set-Shows set_disabled e r db db' (set_disabled-IsSetter actor db) sound sound' q
                set in
            rw (← is_r) (ap (λ (r : TenantModuleAccess). r.status) is_set, shows)
      ]
