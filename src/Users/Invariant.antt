-- ===== src/Users/Invariant.antt =====
-- What the writes of `TenantUsersRepo` (src/admin_backend/repositories/tenant_users.py) keep of the
-- table `tenant_users`: the keys and the checks of
-- migrations/versions/ad8afd429581_initial_schema.py.
use cortex_cm.Base.{
  ◌≡◌, refl, sym, ap, inl, inr, ◌<◌, ◌≤◌, Bool, true, false, ◌&&◌, Option, none, some, List, ◌∷◌,
  Text, arith, text_eq_refl, any, update_where, ==_refl, In, In-cons, IsKey, In-update_where,
  update_where-IsKey, cons-IsKey, any_of_In,
}
use mathlib.Core.Path.{subst}
use cortex_cm.Models.Columns.{Uuid}
use cortex_cm.Models.TenantUsers.{TenantUser, TenantUserStatus, ActorUserType, suspended}
use cortex_cm.Database.Tables.{Db}
use cortex_cm.Database.Session.{Session, admits}
use cortex_cm.Tenants.Transition.{Target, to_suspended, to_active}
use cortex_cm.Models.Checks.{triplet_matches}
use cortex_cm.Users.Validate.{has_email}
use cortex_cm.Users.Create.{new_user}
use cortex_cm.Users.Transition.{is_source, set_target}
use cortex_cm.Users.Accept.{is_invited, set_accepted}

abbrev is_set_unless {ℓ} : {A : Type ℓ} → Bool → Option A → Bool
is_set_unless true none = true
is_set_unless false (some a) = true
is_set_unless _ _ = false

abbrev is_suspended : TenantUserStatus → Bool
is_suspended suspended = true
is_suspended _ = false

-- `ck_tenant_users_auth0_sub_consistency`, `ck_tenant_users_invitation_accepted_consistency` and
-- `ck_tenant_users_suspended_consistency`
unfoldable pub status_consistent : TenantUser → Bool
status_consistent u =
    is_set_unless (is_invited u.status) u.auth0_sub
    && (is_set_unless (is_invited u.status) u.invitation_accepted_at
        && triplet_matches (is_suspended u.status) u.suspended_at u.suspended_by_user_id
            u.suspended_by_user_type)

abbrev pub user_key : TenantUser → Option Uuid
user_key u = some u.id

-- `uq_tenant_users_tenant_email`
abbrev pub email_key : TenantUser → Option (Uuid × Text)
email_key u = some (u.tenant_id, u.email)

pub record IsSound (us : List TenantUser) (next : Uuid) : Type 0 where
  pub ids : IsKey user_key us
  pub below : (u : TenantUser) → In u us → u.id < next
  pub emails : IsKey email_key us
  pub consistent : (u : TenantUser) → In u us → status_consistent u ≡ true

abbrev pub IsSoundDb : Db → Type 0
IsSoundDb db = IsSound db.tenant_users db.next_id

-- The rows that an UPDATE leaves, whatever it does to emails.
updated_row :
    (P : TenantUser → Type 0) (p : TenantUser → Bool) (f : TenantUser → TenantUser)
    (us : List TenantUser) (u : TenantUser)
    → ((x : TenantUser) → In x us → P x)
    → ((x : TenantUser) → In x us → p x ≡ true → P x → P (f x))
    → In u (update_where p f us)
    → P u
updated_row P p f us u before keep at =
    let (x, at_x, c) = In-update_where p f us at in
    elim c [
      | inl (met, e) ↦ subst P (sym e) (keep x at_x met (before x at_x))
      | inr (_, e) ↦ subst P (sym e) (before x at_x)
    ]

-- An UPDATE that keeps the emails keys and its rows consistent keeps the table sound.
pub update_where-IsSound :
    (p : TenantUser → Bool) (f : TenantUser → TenantUser) (us : List TenantUser) (next next' : Uuid)
    → ((x : TenantUser) → (f x).id ≡ x.id)
    → ((x : TenantUser)
        → In x us
        → p x ≡ true
        → status_consistent x ≡ true
        → status_consistent (f x) ≡ true)
    → IsKey email_key (update_where p f us)
    → next ≤ next'
    → IsSound us next
    → IsSound (update_where p f us) next'
update_where-IsSound p f us next next' same_id keeps emails later sound = record {
  ids = update_where-IsKey user_key p f us (λ x. ap some (same_id x)) sound.ids;
  below = λ u at.
      let h : u.id < next =
        updated_row (λ x. x.id < next) p f us u sound.below
          (λ x _ _ h. subst (λ (i : Uuid). i < next) (sym (same_id x)) h) at in
      omega arith;
  emails = emails;
  consistent =
      λ u at. updated_row (λ x. status_consistent x ≡ true) p f us u sound.consistent keeps at;
}

pub new_user-IsSound :
    (s : Session) (t : Uuid) (email full_name : Text) (actor : Uuid) (actor_type : ActorUserType)
    (db : Db) (next' : Uuid)
    → admits s t ≡ true
    → any (has_email s t email none) db.tenant_users ≡ false
    → db.next_id < next'
    → IsSound db.tenant_users db.next_id
    → IsSound (new_user t email full_name actor actor_type db ∷ db.tenant_users) next'
unfolding status_consistent
new_user-IsSound s t email full_name actor actor_type db next' seen free later sound =
    let u = new_user t email full_name actor actor_type db in
    record {
      ids =
          cons-IsKey user_key u db.tenant_users
            (λ y k at e e'.
              let h = sound.below y at in
              let same : y.id ≡ db.next_id = ground arith in absurd (omega arith))
            sound.ids;
      below = λ x at.
          In-cons (x.id < next') u db.tenant_users (λ e. rw e later)
            (λ old. let h = sound.below x old in omega arith) at;
      emails =
          cons-IsKey email_key u db.tenant_users
            (λ y k at e e'.
              let same_tenant : y.tenant_id ≡ t = ground arith in
              let same_email : y.email ≡ email = ground arith in
              let met : has_email s t email none y ≡ true =
                rw (same_tenant, same_email, seen, ==_refl t, text_eq_refl email) refl in
              let found = any_of_In (has_email s t email none) at met in cc)
            sound.emails;
      consistent = λ x at.
          In-cons (status_consistent x ≡ true) u db.tenant_users (λ e. rw e refl)
            (λ old. sound.consistent x old) at;
    }

pub set_target-consistent :
    (target : Target) (actor : Uuid) (actor_type : ActorUserType) (db : Db) (u : TenantUser)
    → is_source target u.status ≡ true
    → status_consistent u ≡ true
    → status_consistent (set_target target actor actor_type db u) ≡ true
unfolding status_consistent
set_target-consistent to_suspended actor actor_type db u allowed h = ground arith
set_target-consistent to_active actor actor_type db u allowed h = ground arith

pub set_accepted-consistent :
    (user_id : Uuid) (sub : Text) (db : Db) (u : TenantUser)
    → is_invited u.status ≡ true
    → status_consistent u ≡ true
    → status_consistent (set_accepted user_id sub db u) ≡ true
unfolding status_consistent
set_accepted-consistent user_id sub db u invited h = ground arith
