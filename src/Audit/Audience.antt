-- ===== src/Audit/Audience.antt =====
-- What a tenant's user reads of the audit trail by `list` and `get_audit_activity`
-- (src/admin_backend/repositories/audit_logs.py, src/admin_backend/routers/v1/audit.py).
use cortex_cm.Base.{
  ◌≡◌, refl, sym, ◌∙◌, inl, inr, ℕ, zero, suc, Bool, true, ◌&&◌, Option, none, some, List, [], ◌∷◌,
  map, Text, Bool-cases, ◌==◌, All, All-find, find, select, take,
}
use mathlib.Core.Path.{subst}
use mathlib.Core.Logic.{◌⊎◌}
use cortex_cm.Errors.{client_error, audit_event_not_found}
use cortex_cm.Models.Columns.{Uuid, Timestamp}
use cortex_cm.Models.TenantUsers.{ActorUserType, tenant}
use cortex_cm.Models.AuditLogs.{TenantActivityAuditLog, PlatformActivityAuditLog}
use cortex_cm.Auth.Context.{AuthContext, is_valid_context}
use cortex_cm.Database.Session.{session_of, admits, admits_tenant}
use cortex_cm.Database.Tables.{Db}
use cortex_cm.Result.{raise, ok, >>=-eq-ok}
use cortex_cm.Audit.Cursor.{Codec}
use cortex_cm.Audit.Activities.{
  Filters, Scope, tenant_scope, platform_scope, tenant_rows, platform_rows, of_tenant, of_platform,
  fetch, common_where, is_past, order_by,
}
use cortex_cm.Audit.Listing.{
  Call, ListResult, list, page_of, params, anchor_of, is_given, or_else, get_by_id, answer,
  get_audit_activity,
}
use cortex_cm.Audit.Keyset.{Row, All-select, All-order_by}

-- A row of the caller's own tenant, from the table of the tenants' activities.
abbrev pub IsOwn : AuthContext → Row → Type 0
IsOwn a r = (r.tenant_id ≡ a.tenant_id) × (r.scope ≡ tenant_scope)

All-take : (P : Row → Type 0) (n : ℕ) (xs : List Row) → All P xs → All P (take n xs)
All-take P zero xs h = tt
All-take P (suc n) [] h = tt
All-take P (suc n) (x ∷ xs) h = (h.0, All-take P n xs h.1)

platform_scopes :
    (rows : List PlatformActivityAuditLog)
    → All (λ (r : Row). r.scope ≡ platform_scope) (map of_platform rows)
platform_scopes [] = tt
platform_scopes (r ∷ rows) = (refl, platform_scopes rows)

platform_rows-scope : (db : Db) → All (λ (r : Row). r.scope ≡ platform_scope) (platform_rows db)
unfolding platform_rows
platform_rows-scope db = platform_scopes db.platform_activity_audit_logs

or_else-eq-some :
    (first next : Option Row) (x : Row)
    → or_else first next ≡ some x
    → (first ≡ some x) ⊎ (next ≡ some x)
or_else-eq-some none next x e = inr e
or_else-eq-some (some y) next x e = inl e

answer_shown : (u : ActorUserType) (x : Row) → x.scope ≡ tenant_scope → answer u (some x) ≡ ok x
answer_shown u x h = rw h refl

answer_hidden :
    (u : ActorUserType) (x : Row)
    → u ≡ tenant
    → x.scope ≡ platform_scope
    → answer u (some x) ≡ raise (client_error audit_event_not_found)
answer_hidden u x who h = rw who (rw h refl)

module _ (a : AuthContext) (valid : is_valid_context a ≡ true) (who : a.user_type ≡ tenant) where
  IsOwn-rows :
      (rows : List TenantActivityAuditLog)
      → All (IsOwn a) (map of_tenant (select (λ r. admits (session_of a) r.tenant_id) rows))
  IsOwn-rows [] = tt
  IsOwn-rows (r ∷ rows) = elim (Bool-cases (admits (session_of a) r.tenant_id)) [
    | inl e ↦ rw e ((sym (admits_tenant a r.tenant_id valid who e), refl), IsOwn-rows rows)
    | inr e ↦ rw e (IsOwn-rows rows)
  ]

  tenant_rows-IsOwn : (db : Db) → All (IsOwn a) (tenant_rows (session_of a) db)
  unfolding tenant_rows
  tenant_rows-IsOwn db = IsOwn-rows db.tenant_activity_audit_logs

  fetch-IsOwn :
      (ilike : Text → Text → Bool) (q : Filters) (scope : Option Scope)
      (anchor : Option (Timestamp × Uuid)) (n : ℕ) (db : Db)
      → All (IsOwn a) (fetch ilike (session_of a) tenant q scope anchor n db)
  unfolding fetch
  fetch-IsOwn ilike q scope anchor n db =
      let keep = λ (r : Row). common_where ilike q r && is_past anchor r in
      All-take (IsOwn a) n (order_by (select keep (tenant_rows (session_of a) db))) (
        All-order_by (IsOwn a) (select keep (tenant_rows (session_of a) db))
          (All-select (IsOwn a) keep (tenant_rows (session_of a) db) (tenant_rows-IsOwn db)))

  -- For a valid identity that is a tenant's user: every row of a page of the listing, whatever the
  -- filters, the scope and the cursor, is a row of the tenants' table whose tenant is the user's own.
  pub list-IsOwn :
      (codec : Codec) (ilike : Text → Text → Bool) (call : Call) (cursor : Option Text) (db : Db)
      (page : ListResult)
      → call.user_type ≡ a.user_type
      → list codec ilike (session_of a) call cursor db ≡ ok page
      → All (IsOwn a) page.items
  unfolding list
  list-IsOwn codec ilike call cursor db page same e =
      let fetched = λ (anchor : Option (Timestamp × Uuid)).
        fetch ilike (session_of a) call.user_type (params call.filters) call.scope anchor
          (suc call.limit) db in
      let made = λ (anchor : Option (Timestamp × Uuid)).
        page_of codec ilike call.limit (is_given codec ilike cursor) (fetched anchor) in
      let (anchor, first, second) =
        >>=-eq-ok (anchor_of codec ilike cursor) (λ anchor. ok (made anchor)) e in
      let page_is : made anchor ≡ page = cc in
      let own : All (IsOwn a) (fetched anchor) =
        rw (same ∙ who)
          (fetch-IsOwn ilike (params call.filters) call.scope anchor (suc call.limit) db) in
      subst (λ (p : ListResult). All (IsOwn a) p.items) page_is
        (All-take (IsOwn a) call.limit (fetched anchor) own)

  answer-IsOwn :
      (found : Option Row) {r : Row}
      → ((x : Row) → found ≡ some x → IsOwn a x ⊎ (x.scope ≡ platform_scope))
      → answer a.user_type found ≡ ok r
      → IsOwn a r
  answer-IsOwn none sound e = absurd (cc)
  answer-IsOwn (some x) {r} sound e = elim (sound x refl) [
    | inl own ↦
        let shown = answer_shown a.user_type x own.1 in
        let same : x ≡ r = cc in subst (IsOwn a) same own
    | inr hidden ↦ let refused = answer_hidden a.user_type x who hidden in absurd (cc)
  ]

  found-IsOwn :
      (audit_row_id : Uuid) (db : Db) (x : Row)
      → get_by_id (session_of a) audit_row_id db ≡ some x
      → IsOwn a x ⊎ (x.scope ≡ platform_scope)
  found-IsOwn audit_row_id db x e =
      let here = λ (r : Row). r.id == audit_row_id in
      let from_tenants =
        All-find (IsOwn a) here (tenant_rows (session_of a) db) {y = x} (tenant_rows-IsOwn db) in
      let from_platform =
        All-find (λ (r : Row). r.scope ≡ platform_scope) here (platform_rows db) {y = x}
          (platform_rows-scope db) in
      elim (or_else-eq-some (find here (tenant_rows (session_of a) db))
        (find here (platform_rows db)) x e) [
          | inl f ↦ inl (from_tenants f)
          | inr f ↦ inr (from_platform f)
        ]

  -- For a valid identity that is a tenant's user: what the detail of any id returns is a row of the
  -- tenants' table whose tenant is the user's own, although the platform's table is read as well.
  pub get_audit_activity-IsOwn :
      (audit_row_id : Uuid) (db : Db) (r : Row)
      → get_audit_activity (session_of a) a.user_type audit_row_id db ≡ ok r
      → IsOwn a r
  unfolding get_audit_activity
  get_audit_activity-IsOwn audit_row_id db r e =
      answer-IsOwn (get_by_id (session_of a) audit_row_id db) {r = r} (found-IsOwn audit_row_id db)
        e
