-- ===== src/Users/Accepted.antt =====
-- A second call of `TenantUsersRepo.accept_invitation`
-- (src/admin_backend/repositories/tenant_users.py).
use cortex_cm.Base.{
  ◌≡◌, refl, sym, ◌∙◌, ap, ◌⊎◌, inl, inr, Bool, true, false, Option, none, some, List, [], ◌∷◌,
  Text, arith, length, any, find, select, update_where, Bool-cases, Option-cases, ◌==◌, In, here,
  there, IsKey, find_sound, find-In, In-update_where, and-split, is_some, any-find, any_of_In,
}
use mathlib.Core.Path.{subst}
use cortex_cm.Result.{Result, ok}
use cortex_cm.Models.Columns.{Uuid}
use cortex_cm.Models.TenantUsers.{TenantUser, TenantUserStatus, active}
use cortex_cm.Auth.Context.{AuthContext}
use cortex_cm.Database.Tables.{Db}
use cortex_cm.Database.Session.{Session}
use cortex_cm.Users.Detail.{TenantUserDetailRow}
use cortex_cm.Users.Accept.{
  AcceptInvitationResult, activated, already_active, is_member, is_invitee, set_accepted,
  outcome_of, classify, accept_invitation,
}
use cortex_cm.Users.Acceptance.{accepted_users, row_count, accept_invitation-eq-ok}

-- No row is invited after the UPDATE.
none_invited :
    (s : Session) (user_id tenant_id : Uuid) (sub : Text) (db : Db) (us : List TenantUser)
    → select
        (is_invitee s user_id tenant_id)
        (update_where (is_invitee s user_id tenant_id) (set_accepted user_id sub db) us)
      ≡ []
none_invited s user_id tenant_id sub db [] = refl
none_invited s user_id tenant_id sub db (u ∷ us) =
    elim (Bool-cases (is_invitee s user_id tenant_id u)) [
      | inl e ↦ rw e (rw (active_unmet u) (none_invited s user_id tenant_id sub db us))
      | inr e ↦ rw e (rw e (none_invited s user_id tenant_id sub db us))
    ]
  where
    active_unmet :
        (u : TenantUser) → is_invitee s user_id tenant_id (set_accepted user_id sub db u) ≡ false
    active_unmet u = ground arith

update_where-unmet :
    (p : TenantUser → Bool) (f : TenantUser → TenantUser) (us : List TenantUser)
    → select p us ≡ []
    → update_where p f us ≡ us
update_where-unmet p f [] h = refl
update_where-unmet p f (u ∷ us) h = elim (Bool-cases (p u)) [
  | inl e ↦ absurd (met (rw e at h))
  | inr e ↦ rw e (ap (λ (rest : List TenantUser). u ∷ rest) (update_where-unmet p f us (rw e at h)))
]
  where
    met : u ∷ select p us ≡ [] → ⊥
    met h = cc

update_where-In :
    (p : TenantUser → Bool) (f : TenantUser → TenantUser) {u : TenantUser} {us : List TenantUser}
    → In u us
    → p u ≡ true
    → In (f u) (update_where p f us)
update_where-In p f here e = rw e here
update_where-In p f (there at) e = there (update_where-In p f at e)

some_met :
    (p : TenantUser → Bool) (us : List TenantUser)
    → (length (select p us) == 1) ≡ true
    → (u : TenantUser) × In u us × (p u ≡ true)
some_met p [] h = absurd (cc)
some_met p (u ∷ us) h = elim (Bool-cases (p u)) [
  | inl e ↦ (u, here, e)
  | inr e ↦ let (v, at, q) = some_met p us (rw e at h) in (v, there at, q)
]

found_member :
    (p : TenantUser → Bool) {u : TenantUser} {us : List TenantUser}
    → In u us
    → p u ≡ true
    → (v : TenantUser) × (find p us ≡ some v)
found_member p {u} {us} at e = elim (Option-cases (find p us)) [
  | inl q ↦ absurd (missing (any-find p us) (any_of_In p at e) q)
  | inr (v, q) ↦ (v, q)
]
  where
    missing : any p us ≡ is_some (find p us) → any p us ≡ true → find p us ≡ none → ⊥
    missing a b c = let d = rw c at a in cc

module _ (sort_names : List Text → List Text) (s : Session) (user_id tenant_id : Uuid)
    (auth0_sub : Text) (auth : Option AuthContext) (rid : Option Uuid) where
  -- The member is active once an invitation has been accepted.
  active_member :
      (db : Db)
      → IsKey (λ (u : TenantUser). some u.id) db.tenant_users
      → row_count sort_names s user_id tenant_id auth0_sub auth rid db ≡ true
      → (u : TenantUser) × (find
            (is_member s user_id tenant_id)
            (accepted_users sort_names s user_id tenant_id auth0_sub auth rid db)
          ≡ some u)
        × (u.status ≡ active)
  active_member db key counted =
      let p = is_invitee s user_id tenant_id in
      let f = set_accepted user_id auth0_sub db in
      let q = is_member s user_id tenant_id in
      let (v, at, met) = some_met p db.tenant_users counted in
      let (v_member, _) = and-split (q v) _ met in
      let new_at : In (f v) (update_where p f db.tenant_users) = update_where-In p f at met in
      let (u, found) = found_member q new_at v_member in
      let u_member : q u ≡ true = find_sound q (update_where p f db.tenant_users) found in
      let (x, at_x, c) =
        In-update_where p f db.tenant_users (find-In q (update_where p f db.tenant_users) found) in
      (
        u,
        found,
        elim c [
          | inl (_, e) ↦ ap (λ (y : TenantUser). y.status) e
          | inr (unmet, e) ↦
              let x_member : q x ≡ true = subst (λ (y : TenantUser). q y ≡ true) e u_member in
              let same : x ≡ v =
                key x v user_id at_x at (ap some (member_id x x_member))
                  (ap some (member_id v v_member)) in
              absurd (clash unmet (subst (λ (y : TenantUser). p y ≡ true) (sym same) met))
        ],
      )
    where
      member_id : (y : TenantUser) → is_member s user_id tenant_id y ≡ true → y.id ≡ user_id
      member_id y e = ground arith

      clash : {b : Bool} → b ≡ false → b ≡ true → ⊥
      clash e f = cc

  again_active :
      (db : Db) (u : TenantUser)
      → select (is_invitee s user_id tenant_id) db.tenant_users ≡ []
      → update_where
          (is_invitee s user_id tenant_id)
          (set_accepted user_id auth0_sub db)
          db.tenant_users
        ≡ db.tenant_users
      → find (is_member s user_id tenant_id) db.tenant_users ≡ some u
      → u.status ≡ active
      → accept_invitation sort_names s user_id tenant_id auth0_sub auth rid db
        ≡ ok ((none, already_active), db)
  unfolding accept_invitation
  again_active db u e1 e2 e3 is_active =
      rw (e1, e2, e3)
        (ap
          (λ (st : TenantUserStatus).
            let r : Result ((Option TenantUserDetailRow × AcceptInvitationResult) × Db) =
              ok ((none, outcome_of st), db) in
            r)
          is_active)

module _ (sort_names : List Text → List Text) (s : Session) (user_id tenant_id : Uuid)
    (auth0_sub : Text) (auth : Option AuthContext) (rid : Option Uuid) where
  -- An invitation is accepted once. Where ids are keys, after a call that answers `ACTIVATED`, another
  -- call for the same user and tenant, with any subject and any audit arguments, answers
  -- `ALREADY_ACTIVE` and leaves the whole database as it is.
  pub accept_invitation-again :
      (db : Db) {x : Option TenantUserDetailRow × AcceptInvitationResult} {db' : Db} (sub' : Text)
      (auth' : Option AuthContext) (rid' : Option Uuid)
      → IsKey (λ (u : TenantUser). some u.id) db.tenant_users
      → accept_invitation sort_names s user_id tenant_id auth0_sub auth rid db ≡ ok (x, db')
      → x.1 ≡ activated
      → accept_invitation sort_names s user_id tenant_id sub' auth' rid' db'
        ≡ ok ((none, already_active), db')
  accept_invitation-again db {x} {db'} sub' auth' rid' key h done =
      let (same, outcome) =
        accept_invitation-eq-ok sort_names s user_id tenant_id auth0_sub auth rid db h in
      let counted = activated_count db outcome done in
      let (u, found, is_active) =
        active_member sort_names s user_id tenant_id auth0_sub auth rid db key counted in
      let users = same.tenant_users in
      let e1 : select (is_invitee s user_id tenant_id) db'.tenant_users ≡ [] =
        rw users (none_invited s user_id tenant_id auth0_sub db db.tenant_users) in
      let e2 =
        update_where-unmet (is_invitee s user_id tenant_id) (set_accepted user_id sub' db')
          db'.tenant_users e1 in
      let e3 : find (is_member s user_id tenant_id) db'.tenant_users ≡ some u = rw users found in
      again_active sort_names s user_id tenant_id sub' auth' rid' db' u e1 e2 e3 is_active
    where
      activated_count :
          (db : Db)
          → ((row_count sort_names s user_id tenant_id auth0_sub auth rid db ≡ true)
              × (x.1 ≡ activated))
            ⊎ ((row_count sort_names s user_id tenant_id auth0_sub auth rid db ≡ false)
                × (x ≡ (
                  none,
                  classify (
                      find
                        (is_member s user_id tenant_id)
                        (accepted_users sort_names s user_id tenant_id auth0_sub auth rid db)),
                )))
          → x.1 ≡ activated
          → row_count sort_names s user_id tenant_id auth0_sub auth rid db ≡ true
      activated_count db (inl (e, _)) done = e
      activated_count db (inr (_, e)) done = absurd (
          refused
            (find (is_member s user_id tenant_id)
              (accepted_users sort_names s user_id tenant_id auth0_sub auth rid db))
            (sym (ap (λ (y : Option TenantUserDetailRow × AcceptInvitationResult). y.1) e) ∙ done))
        where
          refused : (o : Option TenantUser) → classify o ≡ activated → ⊥
          refused none q = cc
          refused (some u) q = ground arith
