-- ===== src/Roles/Refusals.antt =====
-- Errors in which a statement of `RolesRepo.update` (src/admin_backend/repositories/roles.py) does not
-- end.
use cortex_cm.Base.{
  ◌≡◌, refl, sym, ◌∙◌, inl, inr, Bool, true, false, ◌&&◌, Option, none, some, List, Text, arith,
  find, Option-cases, ◌==◌, In_of_any, any_of_In, is_some, any-find,
}
use cortex_cm.Result.{raise}
use cortex_cm.Errors.{
  Error, client_error, uncaught, admin, server, internal_invariant_violation, last_override_holder,
}
use cortex_cm.Models.Columns.{Uuid}
use cortex_cm.Models.TenantUsers.{ActorUserType}
use cortex_cm.Models.Permissions.{Permission}
use cortex_cm.Models.Roles.{Role}
use cortex_cm.Auth.Context.{AuthContext}
use cortex_cm.Database.Tables.{Db}
use cortex_cm.Database.Session.{Session}
use cortex_cm.Database.Txn.{Txn, pure, throw_if, ◌>>◌, >>=-ne-raise}
use cortex_cm.Audit.Keeps.{emit_audit_event-eq-raise}
use cortex_cm.Roles.Holders.{is_override}
use cortex_cm.Roles.Detail.{RoleDetail, get_detail_by_id}
use cortex_cm.Roles.Update.{RoleUpdateRequest, Diff, emit_updated}
use cortex_cm.Roles.Counting.{holder-role, In-override_role_ids}
use cortex_cm.Roles.Editing.{answer}
use cortex_cm.Roles.Bootstrap.{IsHeld}

-- The error of the tripwire, and of a catalogue that lacks the permission.
abbrev pub lost : Error
lost = admin (server internal_invariant_violation)

-- The error of the first layer.
abbrev pub last : Error
last = client_error last_override_holder

-- The statement does not end in that error.
abbrev pub Silent : {A : Type 0} → Error → Txn A → Db → Type 0
Silent x m db = ¬ (m db ≡ raise x)

pub throw_if-Silent : (b : Bool) (e x : Error) (db : Db) → ¬ (e ≡ x) → Silent x (throw_if b e) db
throw_if-Silent true e x db other h = other (ground arith)
throw_if-Silent false e x db other h = absurd (cc)

pub after_check-Silent :
    {A : Type 0} (b : Bool) (e x : Error) (m : Txn A) (db : Db)
    → ¬ (e ≡ x)
    → Silent x m db
    → Silent x (throw_if b e >> m) db
after_check-Silent true e x m db other silent h = other (ground arith)
after_check-Silent false e x m db other silent h = silent h

-- Where there is a holder, the permission is in the catalogue.
pub held-override :
    (s : Session) (db : Db)
    → IsHeld s db
    → (p : Permission) × (find is_override db.permissions ≡ some p)
held-override s db held =
    let (role_id, e) = holder-role s db none held in
    let (rp, at, grants, _) = In-override_role_ids db none role_id e in
    let (p, at', f) =
      In_of_any (λ p. p.id == rp.permission_id && is_override p) db.permissions (ground arith) in
    elim (Option-cases (find is_override db.permissions)) [
      | inl missing ↦ absurd (
          let found : is_some (find is_override db.permissions) ≡ true =
            sym (any-find is_override db.permissions) ∙ any_of_In is_override at' (ground arith) in
          let nothing : is_some (find is_override db.permissions) ≡ false = rw missing refl in cc)
      | inr found ↦ found
    ]

module _ (sort_names : List Text → List Text) (x : Error) (other : ¬ (uncaught ≡ x)) (s : Session)
    (b : RoleUpdateRequest) where
  emit_updated-Silent :
      (r : Role) (d : Diff) (auth : Option AuthContext) (rid : Option Uuid)
      (detail : Option RoleDetail) (db : Db)
      → Silent x (emit_updated sort_names s b r d auth rid detail) db
  emit_updated-Silent r d none none detail db h = absurd (cc)
  emit_updated-Silent r d none (some rid) detail db h = other (ground arith)
  emit_updated-Silent r d (some a) none detail db h = other (ground arith)
  emit_updated-Silent r d (some a) (some rid) none db h = other (ground arith)
  emit_updated-Silent r d (some a) (some rid) (some detail) db h =
      other (sym (emit_audit_event-eq-raise sort_names s a _ db h))

  pub answer-Silent :
      (display : Text → Text → Option Text) (order_by : List Permission → List Permission)
      (actor : Uuid) (actor_type : ActorUserType) (auth : Option AuthContext) (rid : Option Uuid)
      (r : Role) (d : Diff) (db : Db)
      → Silent x (answer sort_names display order_by s b actor actor_type auth rid r d) db
  answer-Silent display order_by actor actor_type auth rid r d db =
      let found = get_detail_by_id display order_by s r.id none db in
      >>=-ne-raise (emit_updated sort_names s b r d auth rid found) (λ _. pure found) db x
        (emit_updated-Silent r d auth rid found db) (λ u between e q. cc)
