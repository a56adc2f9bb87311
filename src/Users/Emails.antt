-- ===== src/Users/Emails.antt =====
-- The emails of `tenant_users` under `TenantUsersRepo.update`
-- (src/admin_backend/repositories/tenant_users.py).
use cortex_cm.Base.{
  ◌≡◌, refl, sym, ◌∙◌, ap, inl, inr, true, false, Option, none, some, Text, arith, text_eq_refl,
  find, update_where, ◌==◌, ==_iff, In, IsKey, In-update_where, any_of_In, find-In, find_sound,
  and-split,
}
use cortex_cm.Models.Columns.{Uuid}
use cortex_cm.Models.TenantUsers.{TenantUser, ActorUserType}
use cortex_cm.Database.Tables.{Db}
use cortex_cm.Database.Session.{Session, admits}
use cortex_cm.Users.Detail.{is_user}
use cortex_cm.Users.Validate.{has_email}
use cortex_cm.Users.Update.{Fields, value_or, set_fields}
use cortex_cm.Users.Checks.{IsFree}
use cortex_cm.Users.Invariant.{email_key, IsSoundDb}

pub met_id :
    (s : Session) (user_id : Uuid) (u : TenantUser) → is_user s user_id u ≡ true → u.id ≡ user_id
met_id s user_id u h = ground arith

-- The row that the session updates is not one that another row shares its email with.
no_clash :
    (s : Session) (user_id : Uuid) (raw : Option (Option Text)) (u y : TenantUser) (db : Db)
    → IsKey email_key db.tenant_users
    → In u db.tenant_users
    → In y db.tenant_users
    → is_user s user_id u ≡ true
    → is_user s user_id y ≡ false
    → IsFree s u.tenant_id user_id raw db
    → y.tenant_id ≡ u.tenant_id
    → y.email ≡ value_or raw u.email
    → ⊥
no_clash s user_id none u y db emails at_u at_y met unmet free tenant email =
    let same : y ≡ u = emails y u (u.tenant_id, u.email) at_y at_u (rw (tenant, email) refl) refl in
    let met' : is_user s user_id y ≡ true = rw same met in cc
no_clash s user_id (some none) u y db emails at_u at_y met unmet free tenant email =
    let same : y ≡ u = emails y u (u.tenant_id, u.email) at_y at_u (rw (tenant, email) refl) refl in
    let met' : is_user s user_id y ≡ true = rw same met in cc
no_clash s user_id (some (some new)) u y db emails at_u at_y met unmet free tenant email =
    let (seen, _) = and-split (admits s u.tenant_id) _ met in
    let seen_y : admits s y.tenant_id ≡ true = rw tenant seen in
    let other : (y.id == user_id) ≡ false = ground arith in
    let clashes : has_email s u.tenant_id new (some user_id) y ≡ true =
      rw (seen_y, (==_iff y.tenant_id u.tenant_id).1 tenant, email, text_eq_refl new, other) refl in
    let found = any_of_In (has_email s u.tenant_id new (some user_id)) at_y clashes in cc

module _ (s : Session) (user_id : Uuid) (f : Fields) (actor : Uuid) (actor_type : ActorUserType)
    (u : TenantUser) (db : Db) where
  -- The emails stay keys under an edit whose new email is free.
  pub set_fields-IsKey :
      IsSoundDb db
      → find (is_user s user_id) db.tenant_users ≡ some u
      → IsFree s u.tenant_id user_id f.email db
      → IsKey email_key
          (update_where (is_user s user_id) (set_fields f actor actor_type db) db.tenant_users)
  set_fields-IsKey sound found free x' y' k at at' e e' =
      let p = is_user s user_id in
      let g = set_fields f actor actor_type db in
      let at_u = find-In p db.tenant_users found in
      let met_u : p u ≡ true = find_sound p db.tenant_users found in
      let (x, ix, cx) = In-update_where p g db.tenant_users at in
      let (y, iy, cy) = In-update_where p g db.tenant_users at' in
      let is_u : (z : TenantUser) → In z db.tenant_users → p z ≡ true → z ≡ u = λ z iz met.
        sound.ids z u user_id iz at_u (ap some (met_id s user_id z met))
          (ap some (met_id s user_id u met_u)) in
      elim cx [
        | inl (mx, ex) ↦ elim cy [
          | inl (my, ey) ↦ ex ∙ ap g (is_u x ix mx ∙ sym (is_u y iy my)) ∙ sym ey
          | inr (my, ey) ↦
              absurd
                (mixed x y x' y' k at_u iy met_u (is_u x ix mx) my ex ey e e' sound.emails free)
        ]
        | inr (mx, ex) ↦ elim cy [
          | inl (my, ey) ↦
              absurd
                (mixed y x y' x' k at_u ix met_u (is_u y iy my) mx ey ex e' e sound.emails free)
          | inr (my, ey) ↦
              ex
              ∙ sound.emails x y k ix iy (ap email_key (sym ex) ∙ e) (ap email_key (sym ey) ∙ e')
              ∙ sym ey
        ]
      ]
    where
      mixed :
          (x y x' y' : TenantUser) (k : Uuid × Text)
          → In u db.tenant_users
          → In y db.tenant_users
          → is_user s user_id u ≡ true
          → x ≡ u
          → is_user s user_id y ≡ false
          → x' ≡ set_fields f actor actor_type db x
          → y' ≡ y
          → email_key x' ≡ some k
          → email_key y' ≡ some k
          → IsKey email_key db.tenant_users
          → IsFree s u.tenant_id user_id f.email db
          → ⊥
      mixed x y x' y' k at_u at_y met_u is_u unmet ex ey e e' emails free =
          let as_u : x' ≡ set_fields f actor actor_type db u =
            ex ∙ ap (set_fields f actor actor_type db) is_u in
          let keys : email_key y ≡ email_key (set_fields f actor actor_type db u) =
            ap email_key (sym ey) ∙ e' ∙ sym e ∙ ap email_key as_u in
          no_clash s user_id f.email u y db emails at_u at_y met_u unmet free (ground arith)
            (ground arith)
