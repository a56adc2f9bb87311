-- ===== src/Users/Acceptance.antt =====
-- The rows of users under `TenantUsersRepo.accept_invitation`
-- (src/admin_backend/repositories/tenant_users.py).
use cortex_cm.Base.{
  ◌≡◌, refl, sym, ◌∙◌, ◌⊎◌, inl, inr, Bool, true, false, ◌&&◌, Option, none, List, Text, length,
  any, find, select, update_where, Bool-cases, if◌then◌else◌, ltb, ◌==◌,
}
use mathlib.Core.Path.{subst}
use cortex_cm.Result.{ok}
use cortex_cm.Errors.{uncaught}
use cortex_cm.Models.Columns.{Uuid}
use cortex_cm.Models.TenantUsers.{TenantUser}
use cortex_cm.Auth.Context.{AuthContext}
use cortex_cm.Database.Tables.{Db}
use cortex_cm.Database.Session.{Session}
use cortex_cm.Database.Txn.{pure, modify, ◌>>◌, >>=-eq-ok, after-throw_if, pure-eq-ok}
use cortex_cm.Audit.Keeps.{SameTables, SameTables-refl}
use cortex_cm.Users.Detail.{TenantUserDetailRow, is_user, detail_of}
use cortex_cm.Users.Report.{emit_paired-answer}
use cortex_cm.Users.Accept.{
  AcceptInvitationResult, activated, is_member, is_invitee, is_sub_taken, set_accepted,
  accepted_event, classify, respond_activated, respond_refused, accept_rows, accept_invitation,
}

module _ (sort_names : List Text → List Text) (s : Session) (user_id tenant_id : Uuid)
    (auth0_sub : Text) (auth : Option AuthContext) (rid : Option Uuid) where
  abbrev pub accepted_users : Db → List TenantUser
  accepted_users db =
      update_where (is_invitee s user_id tenant_id) (set_accepted user_id auth0_sub db)
        db.tenant_users

  abbrev pub row_count : Db → Bool
  row_count db = length (select (is_invitee s user_id tenant_id) db.tenant_users) == 1

  accept_rows-eq-ok :
      (db : Db) {b : Bool} {db' : Db}
      → accept_rows sort_names s user_id tenant_id auth0_sub auth rid db ≡ ok (b, db')
      → (b ≡ row_count db) × (db' ≡ record db { tenant_users = accepted_users db })
  accept_rows-eq-ok db h =
      let (_, h1) =
        after-throw_if
          (ltb 0 (length (select (is_invitee s user_id tenant_id) db.tenant_users))
            && any (is_sub_taken user_id tenant_id auth0_sub) db.tenant_users)
          uncaught
          (modify (λ (d : Db). record d {
            tenant_users =
                update_where (is_invitee s user_id tenant_id) (set_accepted user_id auth0_sub d)
                  d.tenant_users;
          })
            >> pure (row_count db))
          db h in
      pure-eq-ok h1

  -- A call that returns has updated the rows that are invited, and but for audit rows nothing else.
  pub accept_invitation-eq-ok :
      (db : Db) {x : Option TenantUserDetailRow × AcceptInvitationResult} {db' : Db}
      → accept_invitation sort_names s user_id tenant_id auth0_sub auth rid db ≡ ok (x, db')
      → SameTables (record db { tenant_users = accepted_users db }) db'
        × (((row_count db ≡ true) × (x.1 ≡ activated))
            ⊎ ((row_count db ≡ false)
                × (x
                    ≡ (none, classify (find (is_member s user_id tenant_id) (accepted_users db))))))
  unfolding accept_invitation
  accept_invitation-eq-ok db {x} {db'} h =
      let db1 : Db = record db { tenant_users = accepted_users db } in
      let yes_part = respond_activated sort_names s user_id tenant_id auth0_sub auth rid in
      let no_part = respond_refused sort_names s user_id tenant_id auth0_sub auth rid in
      let (b, between, h1, h2) =
        >>=-eq-ok (accept_rows sort_names s user_id tenant_id auth0_sub auth rid)
          (λ (b : Bool). if b then yes_part else no_part) db h in
      let (is_b, is_db1) = accept_rows-eq-ok db h1 in
      let h3 = subst (λ (d : Db). (if b then yes_part else no_part) d ≡ ok (x, db')) is_db1 h2 in
      elim (Bool-cases b) [
        | inl e ↦
            let row = detail_of s db1 (find (is_user s user_id) db1.tenant_users) in
            let (q, same) =
              emit_paired-answer sort_names s (accepted_event s user_id tenant_id) auth rid row
                (row, activated) db1 (rw e at h3) in
            (same, inl (sym is_b ∙ e, rw q refl))
        | inr e ↦
            let (q, same) = pure-eq-ok (rw e at h3) in
            (subst (SameTables db1) (sym same) (SameTables-refl db1), inr (sym is_b ∙ e, q))
      ]
