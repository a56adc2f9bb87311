-- ===== src/Modules/Invariant.antt =====
-- The table of module access under `ModulesAccessRepo.enable` and `ModulesAccessRepo.disable`
-- (src/admin_backend/repositories/modules_access.py), with the constraints of
-- migrations/versions/cd2a02e452ae_step_3_4_5_tenant_module_access.py.
use cortex_cm.Base.{
  ◌≡◌, refl, sym, ◌∙◌, ap, inl, inr, ◌≤◌, ◌<◌, suc, Bool, true, false, Option, none, some, List,
  ◌∷◌, arith, any, update_where, ==_iff, and-join, In, In-cons, IsKey, In-update_where,
  update_where-IsKey, cons-IsKey, any_of_In,
}
use cortex_cm.Models.Columns.{Uuid, Timestamp}
use cortex_cm.Models.ModuleAccess.{
  TenantModuleAccess, ModuleCode, ModuleAccessStatus, enabled, disabled,
}
use cortex_cm.Database.Tables.{Db}
use cortex_cm.Permission.Catalogue.{module_eq_refl}
use cortex_cm.Modules.Rows.{is_pair_of, is_refused, set_enabled, set_disabled}

-- The status with both disabled columns, or with none.
abbrev pair_matches : ModuleAccessStatus → Option Timestamp → Option Uuid → Bool
pair_matches enabled none none = true
pair_matches disabled (some t) (some u) = true
pair_matches _ _ _ = false

-- `ck_tenant_module_access_disabled_pair` and `ck_tenant_module_access_status_consistency`
unfoldable pub disabled_consistent : TenantModuleAccess → Bool
disabled_consistent r = pair_matches r.status r.disabled_at r.disabled_by_user_id

abbrev pub pair_of : TenantModuleAccess → Option (Uuid × ModuleCode)
pair_of r = some (r.tenant_id, r.module_code)

abbrev pub id_of : TenantModuleAccess → Option Uuid
id_of r = some r.id

-- Tenant and module are a key, so is the id, the next id is new, and the disabled columns match.
pub record IsSound (rs : List TenantModuleAccess) (next : Uuid) : Type 0 where
  pub pair_key : IsKey pair_of rs
  pub id_key : IsKey id_of rs
  pub fresh : (r : TenantModuleAccess) → In r rs → r.id < next
  pub matched : (r : TenantModuleAccess) → In r rs → disabled_consistent r ≡ true

abbrev pub IsSoundDb : Db → Type 0
IsSoundDb db = IsSound db.tenant_module_access db.next_id

-- An UPDATE that keeps the keys and matches the columns to the status.
pub record IsSetter (set : TenantModuleAccess → TenantModuleAccess) : Type 0 where
  pub same_id : (r : TenantModuleAccess) → (set r).id ≡ r.id
  pub same_tenant : (r : TenantModuleAccess) → (set r).tenant_id ≡ r.tenant_id
  pub same_module : (r : TenantModuleAccess) → (set r).module_code ≡ r.module_code
  pub matches : (r : TenantModuleAccess) → disabled_consistent (set r) ≡ true

pub set_enabled-IsSetter : (actor : Uuid) (db : Db) → IsSetter (set_enabled actor db)
unfolding disabled_consistent
set_enabled-IsSetter actor db = record {
  same_id = λ r. refl;
  same_tenant = λ r. refl;
  same_module = λ r. refl;
  matches = λ r. refl;
}

pub set_disabled-IsSetter : (actor : Uuid) (db : Db) → IsSetter (set_disabled actor db)
unfolding disabled_consistent
set_disabled-IsSetter actor db = record {
  same_id = λ r. refl;
  same_tenant = λ r. refl;
  same_module = λ r. refl;
  matches = λ r. refl;
}

hit :
    (r y : TenantModuleAccess)
    → pair_of r ≡ pair_of y
    → is_pair_of r.tenant_id r.module_code y ≡ true
hit r y same =
    let same_tenant : y.tenant_id ≡ r.tenant_id = ground arith in
    let same_module : y.module_code ≡ r.module_code = ground arith in
    and-join ((==_iff y.tenant_id r.tenant_id).1 same_tenant)
      (rw same_module (module_eq_refl r.module_code))

module _ (rs : List TenantModuleAccess) (next : Uuid) (sound : IsSound rs next) where
  pub later-IsSound : (next' : Uuid) → next ≤ next' → IsSound rs next'
  later-IsSound next' le = record {
    pair_key = sound.pair_key;
    id_key = sound.id_key;
    fresh = λ r i. omega (arith, le, sound.fresh r i);
    matched = sound.matched;
  }

  pub set-IsSound :
      (p : TenantModuleAccess → Bool) (set : TenantModuleAccess → TenantModuleAccess)
      → IsSetter set
      → IsSound (update_where p set rs) next
  set-IsSound p set ok = record {
    pair_key =
        update_where-IsKey pair_of p set rs
          (λ r. ap some (rw (ok.same_tenant r, ok.same_module r) refl)) sound.pair_key;
    id_key = update_where-IsKey id_of p set rs (λ r. ap some (ok.same_id r)) sound.id_key;
    fresh = λ r i.
        let (x, ix, c) = In-update_where p set rs i in
        elim c [
          | inl (q, e) ↦ rw (e, ok.same_id x) (sound.fresh x ix)
          | inr (q, e) ↦ rw e (sound.fresh x ix)
        ];
    matched = λ r i.
        let (x, ix, c) = In-update_where p set rs i in
        elim c [ inl (q, e) ↦ rw e (ok.matches x) | inr (q, e) ↦ rw e (sound.matched x ix) ];
  }

  pub cons-IsSound :
      (r : TenantModuleAccess)
      → r.id ≡ next
      → any (is_pair_of r.tenant_id r.module_code) rs ≡ false
      → disabled_consistent r ≡ true
      → IsSound (r ∷ rs) (suc next)
  cons-IsSound r is_next new matches = record {
    pair_key =
        cons-IsKey pair_of r rs
          (λ y k i e f.
            let same : pair_of r ≡ pair_of y = e ∙ sym f in
            let hit : is_pair_of r.tenant_id r.module_code y ≡ true = hit r y same in
            let found : any (is_pair_of r.tenant_id r.module_code) rs ≡ true =
              any_of_In (is_pair_of r.tenant_id r.module_code) i hit in
            cc)
          sound.pair_key;
    id_key =
        cons-IsKey id_of r rs
          (λ y k i e f.
            let lt = sound.fresh y i in let same : id_of r ≡ id_of y = e ∙ sym f in ground (arith))
          sound.id_key;
    fresh = λ x i.
        In-cons (x.id < suc next) r rs (λ e. rw (e, is_next) (omega arith))
          (λ j. let lt = sound.fresh x j in omega arith) i;
    matched =
        λ x i. In-cons (disabled_consistent x ≡ true) r rs (λ e. rw e matches) (sound.matched x) i;
  }

-- What an INSERT that is accepted has checked.
pub is_refused-false :
    (t : Uuid) (m : ModuleCode) (actor : Uuid) (db : Db)
    → is_refused t m actor db ≡ false
    → any (is_pair_of t m) db.tenant_module_access ≡ false
is_refused-false t m actor db h = ground arith
