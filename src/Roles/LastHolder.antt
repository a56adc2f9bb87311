-- ===== src/Roles/LastHolder.antt =====
-- The error `LastOverrideHolderError` of `RolesRepo.update` of
-- src/admin_backend/repositories/roles.py.
use cortex_cm.Base.{
  ◌≡◌, ◌↔◌, inl, inr, Bool, true, false, not, ◌&&◌, Option, none, some, List, Text, text_eq, arith,
  any, find, Bool-cases, Option-cases, ◌==◌,
}
use cortex_cm.Result.{raise}
use cortex_cm.Errors.{client_error, uncaught, super_admin_protected, role_archived, empty_patch}
use cortex_cm.Models.Columns.{Uuid}
use cortex_cm.Models.TenantUsers.{ActorUserType}
use cortex_cm.Models.Permissions.{Permission}
use cortex_cm.Models.Roles.{Role}
use cortex_cm.Auth.Context.{AuthContext}
use cortex_cm.Database.Tables.{Db}
use cortex_cm.Database.Session.{Session}
use cortex_cm.Database.Txn.{
  Txn, gets, modify, throw_if, ◌>>=◌, ◌>>◌, >>=-ne-raise, >>=-eq-raise, >>=-raise,
  after-throw_if-eq-raise,
}
use cortex_cm.Roles.Sets.{minus}
use cortex_cm.Roles.Holders.{
  is_override, resolve_override_global_permission_id, count_override_global_active_holders,
}
use cortex_cm.Roles.Detail.{RoleDetail, is_tenant_audience, is_role}
use cortex_cm.Roles.Update.{
  RoleUpdateRequest, Diff, diff_of, new_ids, exists, is_global_id, grants_of, is_empty_patch,
  super_admin, is_archived, process_permissions, check_tripwire, write, edit, update, new_name,
  is_name,
}
use cortex_cm.Roles.Editing.{write_part, answer}
use cortex_cm.Roles.Bootstrap.{IsHeld, CodesAreKeys, checked-IsHeld}
use cortex_cm.Roles.Refusals.{
  lost, last, Silent, throw_if-Silent, after_check-Silent, held-override, answer-Silent,
}
use cortex_cm.Roles.LastCheck.{is_last, is_last-empty, process_permissions-last}

module _ (s : Session) where
  check_tripwire-ne-last :
      (new : Option (List Uuid)) (db : Db) → Silent last (check_tripwire s new) db
  check_tripwire-ne-last none db h = absurd (cc)
  check_tripwire-ne-last (some new) db h =
      >>=-ne-raise resolve_override_global_permission_id
        (λ _. gets (count_override_global_active_holders s none) >>= λ holders.
          throw_if (holders == 0) lost)
        db last missing (λ o between e. throw_if-Silent _ lost last between (λ q. cc)) h
    where
      missing : Silent last resolve_override_global_permission_id db
      missing h = elim (Option-cases (find is_override db.permissions)) [
        | inl e ↦ let h' = rw e at h in cc
        | inr (p, e) ↦ let h' = rw e at h in cc
      ]

  -- The edit of the permissions of a role passes the checks before the one on holders, and its writes
  -- would leave no holder.
  pub record TakesLast (b : RoleUpdateRequest) (actor : Uuid) (actor_type : ActorUserType)
      (role_id : Uuid) (db : Db) : Type 0 where
    pub role : Role
    pub raw : Option (List Uuid)
    pub is_found : find (is_role role_id none) db.roles ≡ some role
    pub is_open : text_eq role.code super_admin ≡ false
    pub is_live : is_archived role.status ≡ false
    pub is_sent : b.permission_ids ≡ some raw
    pub are_known : any (λ i. not (exists db i)) (new_ids raw) ≡ false
    pub are_coherent :
        (is_tenant_audience role.audience
          && any (is_global_id db) (minus (new_ids raw) (grants_of role.id db)))
        ≡ false
    pub leaves_none :
        (count_override_global_active_holders s none
            (write b actor actor_type role (diff_of (new_ids raw) (grants_of role.id db)) db)
          == 0)
        ≡ true

module _ (sort_names : List Text → List Text) (display : Text → Text → Option Text)
    (order_by : List Permission → List Permission) (s : Session) (b : RoleUpdateRequest)
    (actor : Uuid) (actor_type : ActorUserType) (auth : Option AuthContext)
    (rid : Option Uuid) where
  abbrev tail : Role → Diff → Txn (Option RoleDetail)
  tail r d = write_part sort_names display order_by s b actor actor_type auth rid r d

  write_part-ne-last : (r : Role) (d : Diff) (db : Db) → Silent last (tail r d) db
  write_part-ne-last r d db =
      let db1 = write b actor actor_type r d db in
      let shown = answer sort_names display order_by s b actor actor_type auth rid r d in
      after_check-Silent (not (is_name (new_name b.name r.name))) uncaught last
        (modify (write b actor actor_type r d) >> (check_tripwire s d.new >> shown)) db (λ q. cc)
        (>>=-ne-raise (check_tripwire s d.new) (λ _. shown) db1 last
          (check_tripwire-ne-last s d.new db1)
          (λ u between e.
            answer-Silent sort_names last (λ q. cc) s b display order_by actor actor_type auth rid r
              d between))

  edit-eq-last :
      (r : Role) (db : Db)
      → edit sort_names display order_by s b actor actor_type auth rid r db ≡ raise last
      → (raw : Option (List Uuid)) × (b.permission_ids ≡ some raw)
        × (process_permissions s r (some raw) db ≡ raise last)
  edit-eq-last r db h =
      elim (>>=-eq-raise (process_permissions s r b.permission_ids) (tail r) db h) [
        | inr (d, between, e, q) ↦ absurd (write_part-ne-last r d between q)
        | inl q ↦ (elim (Option-cases b.permission_ids) [
          | inl e ↦ let q' = rw e at q in absurd (cc)
          | inr (raw, e) ↦ (raw, e, rw e at q)
        ])
      ]

  sent-is_empty_patch :
      (raw : Option (List Uuid)) → b.permission_ids ≡ some raw → is_empty_patch b ≡ false
  sent-is_empty_patch raw e = ground arith

  update-eq-last :
      (role_id : Uuid) (db : Db)
      → CodesAreKeys db
      → IsHeld s db
      → update sort_names display order_by s b actor actor_type auth rid role_id db ≡ raise last
      → TakesLast s b actor actor_type role_id db
  unfolding update
  update-eq-last role_id db unique held h =
      elim (Option-cases (find (is_role role_id none) db.roles)) [
        | inl e ↦ let h' = rw e at h in absurd (cc)
        | inr (r, e) ↦
            let run = edit sort_names display order_by s b actor actor_type auth rid r in
            let (is_open, h1) =
              after-throw_if-eq-raise (text_eq r.code super_admin)
                (client_error super_admin_protected)
                (throw_if (is_archived r.status) (client_error role_archived)
                  >> (throw_if (is_empty_patch b) (client_error empty_patch) >> run))
                db (λ q. cc) (rw e at h) in
            let (is_live, h2) =
              after-throw_if-eq-raise (is_archived r.status) (client_error role_archived)
                (throw_if (is_empty_patch b) (client_error empty_patch) >> run) db (λ q. cc) h1 in
            let (_, h3) =
              after-throw_if-eq-raise (is_empty_patch b) (client_error empty_patch) run db (λ q. cc)
                h2 in
            let (raw, sent, h4) = edit-eq-last r db h3 in
            let (o, found) = held-override s db held in
            let (known, coherent, taken) = (process_permissions-last s r raw db o found).0 h4 in
            record {
              role = r;
              raw = raw;
              is_found = e;
              is_open = is_open;
              is_live = is_live;
              is_sent = sent;
              are_known = known;
              are_coherent = coherent;
              leaves_none =
                  is_last-empty s b actor actor_type r (new_ids raw) o db unique found taken;
            }
      ]

  -- What leaves no holder is refused.
  empty-is_last :
      (role_id : Uuid) (db : Db) (t : TakesLast s b actor actor_type role_id db) (o : Permission)
      → CodesAreKeys db
      → IsHeld s db
      → find is_override db.permissions ≡ some o
      → is_last s t.role (new_ids t.raw) o db ≡ true
  empty-is_last role_id db t o unique held found =
      elim (Bool-cases (is_last s t.role (new_ids t.raw) o db)) [
        | inl q ↦ q
        | inr q ↦
            let still : IsHeld s (
                write b actor actor_type t.role (diff_of (new_ids t.raw) (grants_of t.role.id db))
                  db) =
              checked-IsHeld s b actor actor_type t.role (new_ids t.raw) db unique
                (record {
                  known = t.are_known;
                  coherent = t.are_coherent;
                  override = o;
                  is_the_override = found;
                  holder_left = q;
                })
                held in
            absurd (clash still t.leaves_none)
      ]
    where
      clash : {v : Bool} → v ≡ false → v ≡ true → ⊥
      clash p q = cc

  TakesLast-update :
      (role_id : Uuid) (db : Db)
      → CodesAreKeys db
      → IsHeld s db
      → TakesLast s b actor actor_type role_id db
      → update sort_names display order_by s b actor actor_type auth rid role_id db ≡ raise last
  unfolding update
  TakesLast-update role_id db unique held t =
      let (o, found) = held-override s db held in
      let refused : process_permissions s t.role b.permission_ids db ≡ raise last = rw t.is_sent (
        (process_permissions-last s t.role t.raw db o found).1
          (t.are_known, t.are_coherent, empty-is_last role_id db t o unique held found)) in
      rw (t.is_found, t.is_open, t.is_live, sent-is_empty_patch t.raw t.is_sent)
        (>>=-raise (process_permissions s t.role b.permission_ids) (tail t.role) db refused)

  pub update-last_iff :
      (role_id : Uuid) (db : Db)
      → CodesAreKeys db
      → IsHeld s db
      → (update sort_names display order_by s b actor actor_type auth rid role_id db ≡ raise last)
        ↔ TakesLast s b actor actor_type role_id db
  update-last_iff role_id db unique held =
      (update-eq-last role_id db unique held, TakesLast-update role_id db unique held)
