-- ===== src/Audit/Listing.antt =====
-- `AuditLogsRepo.list` and `get_by_id` of src/admin_backend/repositories/audit_logs.py, and the
-- handler of one row of src/admin_backend/routers/v1/audit.py.
use cortex_cm.Base.{
  ℕ, suc, Bool, true, false, Option, none, some, List, [], ◌∷◌, ◌++◌, Text, length, ltb, ◌==◌, find,
  take, head, last, if◌then◌else◌,
}
use cortex_cm.Errors.{client_error, audit_event_not_found}
use cortex_cm.Models.Columns.{Uuid, Timestamp}
use cortex_cm.Models.TenantUsers.{ActorUserType, tenant}
use cortex_cm.Database.Session.{Session}
use cortex_cm.Database.Tables.{Db}
use cortex_cm.Result.{Result, raise, ok, ◌>>=◌}
use cortex_cm.Audit.Cursor.{Codec, encode_cursor, decode_cursor}
use cortex_cm.Audit.Activities.{
  AuditActivityDetailRow, Scope, platform_scope, tenant_rows, platform_rows, Filters, fetch,
}

pub record ListResult : Type 0 where
  pub items : List AuditActivityDetailRow
  pub next_cursor : Option Text
  pub prev_cursor : Option Text
  pub has_more : Bool

-- A call of `list` but for its cursor.
pub record Call : Type 0 where
  pub user_type : ActorUserType
  pub limit : ℕ
  pub filters : Filters
  pub scope : Option Scope

-- `f"%{search}%" if search else None`
abbrev pattern_of : Option Text → Option Text
pattern_of none = none
pattern_of (some []) = none
pattern_of (some (c ∷ term)) = some (37 ∷ c ∷ (term ++ (37 ∷ [])))

-- The parameters of the statements that come from the filters.
abbrev pub params : Filters → Filters
params q = record q { search = pattern_of q.search }

module _ (codec : Codec) (ilike : Text → Text → Bool) where
  abbrev pub cursor_of : Option AuditActivityDetailRow → Option Text
  cursor_of none = none
  cursor_of (some r) = some (encode_cursor codec r.timestamp r.id)

  abbrev pub anchor_of : Option Text → Result (Option (Timestamp × Uuid))
  anchor_of none = ok none
  anchor_of (some cursor) = decode_cursor codec cursor >>= λ anchor. ok (some anchor)

  -- What `list` makes of the rows that came back.
  abbrev pub page_of : ℕ → Bool → List AuditActivityDetailRow → ListResult
  page_of limit has_cursor rows =
      let has_more = ltb limit (length rows) in
      let items = take limit rows in
      record {
        items = items;
        next_cursor = if has_more then cursor_of (last items) else none;
        prev_cursor = if has_cursor then cursor_of (head items) else none;
        has_more = has_more;
      }

  abbrev pub is_given : Option Text → Bool
  is_given none = false
  is_given (some _) = true

  unfoldable pub list : Session → Call → Option Text → Db → Result ListResult
  list s call cursor db = anchor_of cursor >>= λ anchor. ok (
      page_of call.limit (is_given cursor)
        (fetch ilike s call.user_type (params call.filters) call.scope anchor (suc call.limit) db))

-- `if row is not None: return row`
abbrev pub or_else {ℓ} : {A : Type ℓ} → Option A → Option A → Option A
or_else (some r) next = some r
or_else none next = next

abbrev pub get_by_id : Session → Uuid → Db → Option AuditActivityDetailRow
get_by_id s audit_row_id db =
    or_else (find (λ r. r.id == audit_row_id) (tenant_rows s db))
      (find (λ r. r.id == audit_row_id) (platform_rows db))

abbrev pub is_hidden : Scope → ActorUserType → Bool
is_hidden platform_scope tenant = true
is_hidden _ _ = false

-- What the handler makes of the row that was found.
abbrev pub answer : ActorUserType → Option AuditActivityDetailRow → Result AuditActivityDetailRow
answer user_type none = raise (client_error audit_event_not_found)
answer user_type (some r) =
    if is_hidden r.scope user_type then raise (client_error audit_event_not_found) else ok r

unfoldable pub get_audit_activity :
    Session → ActorUserType → Uuid → Db → Result AuditActivityDetailRow
get_audit_activity s user_type audit_row_id db = answer user_type (get_by_id s audit_row_id db)
