-- ===== src/Users/Reachable.antt =====
-- The table `tenant_users` under every sequence of the writes of `TenantUsersRepo`
-- (src/admin_backend/repositories/tenant_users.py).
use cortex_cm.Base.{
  ◌≡◌, refl, sym, ap, inl, inr, ◌≤◌, Bool, true, false, Option, some, List, Text, arith, find, In,
  update_where-IsKey, find-In, find_sound, and-split,
}
use mathlib.Core.Path.{subst}
use cortex_cm.Result.{ok}
use cortex_cm.Models.Columns.{Uuid}
use cortex_cm.Models.TenantUsers.{TenantUser, ActorUserType}
use cortex_cm.Auth.Context.{AuthContext}
use cortex_cm.Database.Tables.{Db}
use cortex_cm.Database.Session.{Session}
use cortex_cm.Tenants.Transition.{Target, to_suspended, to_active, TransitionResult}
use cortex_cm.Users.Pairs.{RoleAssignmentTuple}
use cortex_cm.Users.Detail.{TenantUserDetailRow, is_user}
use cortex_cm.Users.Create.{create}
use cortex_cm.Users.Update.{Fields, is_touched, set_fields, update}
use cortex_cm.Users.Transition.{set_target, transition}
use cortex_cm.Users.Accept.{
  AcceptInvitationResult, is_member, is_invitee, set_accepted, accept_invitation,
}
use cortex_cm.Users.Creation.{create-eq-ok}
use cortex_cm.Users.Checks.{IsFree}
use cortex_cm.Users.Editing.{users_after, update-eq-ok}
use cortex_cm.Users.Lifecycle.{transition_outcomes}
use cortex_cm.Users.Acceptance.{accept_invitation-eq-ok}
use cortex_cm.Users.Emails.{met_id, set_fields-IsKey}
use cortex_cm.Users.Invariant.{
  status_consistent, email_key, IsSound, IsSoundDb, update_where-IsSound, new_user-IsSound,
  set_target-consistent, set_accepted-consistent,
}

later-IsSound :
    {us us' : List TenantUser} {next next' : Uuid}
    → us' ≡ us
    → next ≤ next'
    → IsSound us next
    → IsSound us' next'
later-IsSound {us} {us'} {next} {next'} same later sound =
    subst (λ (xs : List TenantUser). IsSound xs next') (sym same)
      (record {
        ids = sound.ids;
        below = λ u at. let h = sound.below u at in omega arith;
        emails = sound.emails;
        consistent = sound.consistent;
      })

module _ (accepts_email : Text → Bool) (sort_names : List Text → List Text) (s : Session) where
  create-IsSound :
      (t : Uuid) (email full_name : Text) (pairs : List RoleAssignmentTuple) (actor : Uuid)
      (actor_type : ActorUserType) (auth : Option AuthContext) (rid : Option Uuid) (db : Db)
      {row : Option TenantUserDetailRow} {db' : Db}
      → create accepts_email sort_names s t email full_name pairs actor actor_type auth rid db
        ≡ ok (row, db')
      → IsSoundDb db
      → IsSoundDb db'
  create-IsSound t email full_name pairs actor actor_type auth rid db {row} {db'} h sound =
      elim (create-eq-ok accepts_email sort_names s t email full_name pairs actor actor_type auth
        rid db h) [
          | inl (_, _, same) ↦ subst IsSoundDb (sym same) sound
          | inr done ↦
              subst (λ (us : List TenantUser). IsSound us db'.next_id) (sym done.users)
                (new_user-IsSound s t email full_name actor actor_type db db'.next_id done.seen
                  done.free done.next_id sound)
        ]

  update-IsSound :
      (f : Fields) (actor : Uuid) (actor_type : ActorUserType) (auth : Option AuthContext)
      (rid : Option Uuid) (user_id : Uuid) (db : Db) {row : Option TenantUserDetailRow} {db' : Db}
      → update accepts_email sort_names s f actor actor_type auth rid user_id db ≡ ok (row, db')
      → IsSoundDb db
      → IsSoundDb db'
  update-IsSound f actor actor_type auth rid user_id db {row} {db'} h sound =
      elim (update-eq-ok accepts_email sort_names s f actor actor_type auth rid user_id db h) [
        | inl (_, _, same) ↦ subst IsSoundDb (sym same) sound
        | inr (u, new, found, _, edited) ↦
            subst (λ (us : List TenantUser). IsSound us db'.next_id) (sym edited.users)
              (touched u db' found edited.free edited.same_tables.next_id sound (is_touched f new))
      ]
    where
      touched :
          (u : TenantUser) (db' : Db)
          → find (is_user s user_id) db.tenant_users ≡ some u
          → IsFree s u.tenant_id user_id f.email db
          → db.next_id ≤ db'.next_id
          → IsSoundDb db
          → (b : Bool)
          → IsSound
              (users_after accepts_email sort_names s f actor actor_type auth rid user_id b db)
              db'.next_id
      touched u db' found free later sound false = later-IsSound refl later sound
      touched u db' found free later sound true =
          update_where-IsSound (is_user s user_id) (set_fields f actor actor_type db)
            db.tenant_users db.next_id db'.next_id (λ x. refl)
            (λ x _ _ h. unfold status_consistent in h)
            (set_fields-IsKey s user_id f actor actor_type u db sound found free) later sound

  transition-IsSound :
      (target : Target) (actor : Uuid) (actor_type : ActorUserType) (auth : Option AuthContext)
      (rid : Option Uuid) (user_id : Uuid) (db : Db)
      {x : Option TenantUserDetailRow × TransitionResult} {db' : Db}
      → transition sort_names s target actor actor_type auth rid user_id db ≡ ok (x, db')
      → IsSoundDb db
      → IsSoundDb db'
  transition-IsSound target actor actor_type auth rid user_id db {x} {db'} h sound =
      elim (transition_outcomes sort_names s target actor actor_type auth rid user_id db h) [
        | inl (_, _, same) ↦ subst IsSoundDb (sym same) sound
        | inr (u, found, outcome) ↦ elim outcome [
          | inl (_, _, same) ↦ subst IsSoundDb (sym same) sound
          | inr (allowed, _, same) ↦ later-IsSound same.tenant_users same.next_id (
              update_where-IsSound (is_user s user_id) (set_target target actor actor_type db)
                db.tenant_users db.next_id db.next_id (same_id target)
                (λ y at met ok_y.
                  set_target-consistent target actor actor_type db y
                    (rw (is_u u found y at met) allowed) ok_y)
                (update_where-IsKey email_key (is_user s user_id)
                  (set_target target actor actor_type db) db.tenant_users (same_email target)
                  sound.emails)
                (omega arith) sound)
        ]
      ]
    where
      same_id : (g : Target) (y : TenantUser) → (set_target g actor actor_type db y).id ≡ y.id
      same_id to_suspended y = refl
      same_id to_active y = refl

      same_email :
          (g : Target) (y : TenantUser)
          → email_key (set_target g actor actor_type db y) ≡ email_key y
      same_email to_suspended y = refl
      same_email to_active y = refl

      is_u :
          (u : TenantUser)
          → find (is_user s user_id) db.tenant_users ≡ some u
          → (y : TenantUser) → In y db.tenant_users
          → is_user s user_id y ≡ true
          → y ≡ u
      is_u u found y at met =
          sound.ids y u user_id at (find-In (is_user s user_id) db.tenant_users found)
            (ap some (met_id s user_id y met))
            (ap some (met_id s user_id u (find_sound (is_user s user_id) db.tenant_users found)))

  accept_invitation-IsSound :
      (user_id tenant_id : Uuid) (sub : Text) (auth : Option AuthContext) (rid : Option Uuid)
      (db : Db) {x : Option TenantUserDetailRow × AcceptInvitationResult} {db' : Db}
      → accept_invitation sort_names s user_id tenant_id sub auth rid db ≡ ok (x, db')
      → IsSoundDb db
      → IsSoundDb db'
  accept_invitation-IsSound user_id tenant_id sub auth rid db {x} {db'} h sound =
      let same = (accept_invitation-eq-ok sort_names s user_id tenant_id sub auth rid db h).0 in
      let p = is_invitee s user_id tenant_id in
      later-IsSound same.tenant_users same.next_id (
        update_where-IsSound p (set_accepted user_id sub db) db.tenant_users db.next_id db.next_id
          (λ y. refl)
          (λ y _ met ok_y.
            set_accepted-consistent user_id sub db y
              (and-split (is_member s user_id tenant_id y) _ met).1 ok_y)
          (update_where-IsKey email_key p (set_accepted user_id sub db) db.tenant_users (λ y. refl)
            sound.emails)
          (omega arith) sound)

module _ (accepts_email : Text → Bool) (sort_names : List Text → List Text) where
  -- Committed calls, one after the other, by any callers. Between them others may write other tables.
  pub data Reaches (start : Db) : Db → Type 0 where
    begin : Reaches start start
    elsewhere :
        {db : Db} (db' : Db)
        → Reaches start db
        → db'.tenant_users ≡ db.tenant_users
        → db.next_id ≤ db'.next_id
        → Reaches start db'
    creating :
        {db : Db} (s : Session) (t : Uuid) (email full_name : Text)
        (pairs : List RoleAssignmentTuple) (actor : Uuid) (actor_type : ActorUserType)
        (auth : Option AuthContext) (rid : Option Uuid) (row : Option TenantUserDetailRow)
        (db' : Db)
        → Reaches start db
        → create accepts_email sort_names s t email full_name pairs actor actor_type auth rid db
          ≡ ok (row, db')
        → Reaches start db'
    updating :
        {db : Db} (s : Session) (f : Fields) (actor : Uuid) (actor_type : ActorUserType)
        (auth : Option AuthContext) (rid : Option Uuid) (user_id : Uuid)
        (row : Option TenantUserDetailRow) (db' : Db)
        → Reaches start db
        → update accepts_email sort_names s f actor actor_type auth rid user_id db ≡ ok (row, db')
        → Reaches start db'
    moving :
        {db : Db} (s : Session) (target : Target) (actor : Uuid) (actor_type : ActorUserType)
        (auth : Option AuthContext) (rid : Option Uuid) (user_id : Uuid)
        (x : Option TenantUserDetailRow × TransitionResult) (db' : Db)
        → Reaches start db
        → transition sort_names s target actor actor_type auth rid user_id db ≡ ok (x, db')
        → Reaches start db'
    accepting :
        {db : Db} (s : Session) (user_id tenant_id : Uuid) (sub : Text) (auth : Option AuthContext)
        (rid : Option Uuid) (x : Option TenantUserDetailRow × AcceptInvitationResult) (db' : Db)
        → Reaches start db
        → accept_invitation sort_names s user_id tenant_id sub auth rid db ≡ ok (x, db')
        → Reaches start db'

  -- Every table of users that committed calls of `create`, `update`, `transition` and
  -- `accept_invitation` lead to is sound if the first was: ids are keys below the next id, no two rows
  -- of a tenant share an email, an invited user has no subject and no time of acceptance and any other
  -- user has both, and just the suspended users have the three suspension columns.
  pub Reaches-IsSound :
      (start db : Db)
      → IsSound start.tenant_users start.next_id
      → Reaches start db
      → IsSound db.tenant_users db.next_id
  Reaches-IsSound start db sound begin = sound
  Reaches-IsSound start db sound (elsewhere {db = before} db' r same later) =
      later-IsSound same later (Reaches-IsSound start before sound r)
  Reaches-IsSound start db sound
        (creating {db = before} s t email full_name pairs actor actor_type auth rid row db' r h) =
      create-IsSound accepts_email sort_names s t email full_name pairs actor actor_type auth rid
        before h (Reaches-IsSound start before sound r)
  Reaches-IsSound start db sound
        (updating {db = before} s f actor actor_type auth rid user_id row db' r h) =
      update-IsSound accepts_email sort_names s f actor actor_type auth rid user_id before h
        (Reaches-IsSound start before sound r)
  Reaches-IsSound start db sound
        (moving {db = before} s target actor actor_type auth rid user_id x db' r h) =
      transition-IsSound accepts_email sort_names s target actor actor_type auth rid user_id before
        h (Reaches-IsSound start before sound r)
  Reaches-IsSound start db sound
        (accepting {db = before} s user_id tenant_id sub auth rid x db' r h) =
      accept_invitation-IsSound accepts_email sort_names s user_id tenant_id sub auth rid before h
        (Reaches-IsSound start before sound r)
