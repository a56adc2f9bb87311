-- ===== src/Audit/ListingTests.antt =====
-- The audit listing of a tenant's user over three rows of the tenant and one of another.
use cortex_cm.Base.{
  ◌≡◌, refl, ap, inr, ℕ, zero, suc, true, Option, none, some, List, [], ◌∷◌, Bool, Text, codes, All,
  arith,
}
use cortex_cm.Models.Columns.{Uuid, Timestamp, null}
use cortex_cm.Models.AuditLogs.{AuditResultType, TenantActivityAuditLog}
use cortex_cm.Models.TenantUsers.{tenant}
use cortex_cm.Auth.Context.{is_valid_context}
use cortex_cm.Auth.Email.{email_matches}
use cortex_cm.Database.Tables.{Db}
use cortex_cm.Database.Session.{session_of, admits}
use cortex_cm.Result.{ok}
use cortex_cm.Audit.Cursor.{
  Codec, encode_cursor, decode_cursor, decode_cursor-encode_cursor, IsCodec, Value, text, other,
  dict, payload_of,
}
use cortex_cm.Audit.Activities.{
  AuditActivityDetailRow, Filters, of_tenant, tenant_rows, common_where, order_by, fetch,
}
use cortex_cm.Audit.Listing.{Call, ListResult, list, get_audit_activity}
use cortex_cm.Audit.Keyset.{Distinct}
use cortex_cm.Audit.Paging.{follow, rows_for, follow_complete}
use cortex_cm.Audit.Audience.{IsOwn, list-IsOwn, get_audit_activity-IsOwn}
use cortex_cm.Samples.{acme, member}

-- A codec that writes two texts with a zero between them.
abbrev two : Text → Text → Text
two [] b = 0 ∷ b
two (x ∷ a) b = suc x ∷ two a b

abbrev before_zero : Text → Text
before_zero [] = []
before_zero (zero ∷ t) = []
before_zero (suc x ∷ t) = x ∷ before_zero t

abbrev after_zero : Text → Text
after_zero [] = []
after_zero (zero ∷ t) = t
after_zero (suc x ∷ t) = after_zero t

before_zero-two : (a b : Text) → before_zero (two a b) ≡ a
before_zero-two [] b = refl
before_zero-two (x ∷ a) b = ap (λ t. x ∷ t) (before_zero-two a b)

after_zero-two : (a b : Text) → after_zero (two a b) ≡ b
after_zero-two [] b = refl
after_zero-two (x ∷ a) b = after_zero-two a b

abbrev value_text : Value → Text
value_text (text t) = t
value_text (other t) = t

abbrev write_fields : List (Text × Value) → Text
write_fields ((_, v) ∷ (_, w) ∷ []) = two (value_text v) (value_text w)
write_fields _ = []

abbrev read_number : Text → Option ℕ
read_number (n ∷ []) = some n
read_number _ = none

abbrev plain : Codec
plain = record {
  b64encode = λ t. t;
  b64decode = λ t. some t;
  dumps = write_fields;
  loads = λ t. some (dict (payload_of (before_zero t) (after_zero t)));
  isoformat = λ t. t ∷ [];
  fromisoformat = read_number;
  uuid_str = λ i. i ∷ [];
  parse_uuid = read_number;
}

plain-IsCodec : IsCodec plain
plain-IsCodec = record {
  base64 = λ t. refl;
  json = λ a b. rw (before_zero-two a b) (rw (after_zero-two a b) refl);
  iso = λ t. refl;
  uuid = λ i. refl;
}

abbrev entry : Uuid → Timestamp → Uuid → TenantActivityAuditLog
entry i t owner = record {
  id = i;
  timestamp = t;
  tenant_id = owner;
  tenant_name = codes "Acme";
  actor_user_id = 7;
  actor_user_type = tenant;
  actor_display_name = codes "a@b.co";
  resource_type = codes "STORE";
  resource_id = none;
  resource_label = none;
  resource_subtype = none;
  action = codes "CREATE";
  action_label = codes "Created";
  result_type = AuditResultType.success;
  result_label = codes "Success";
  actor_organization_name = codes "-";
  actor_roles = codes "-";
  request_id = 5;
  details = null;
}

abbrev logged : Db
logged = record acme {
  tenant_activity_audit_logs = entry 21 4 1 ∷ entry 22 9 1 ∷ entry 23 9 2 ∷ entry 24 9 1 ∷ [];
}

abbrev no_filters : Filters
no_filters = record {
  from_ts = none;
  to_ts = none;
  status = none;
  tenant_id = none;
  search = none;
  resource_type = none;
  actor_user_id = none;
}

abbrev by_one : Call
by_one = record { user_type = tenant; limit = 1; filters = no_filters; scope = none }

abbrev newest_first : List AuditActivityDetailRow
newest_first = of_tenant (entry 24 9 1) ∷ of_tenant (entry 22 9 1) ∷ of_tenant (entry 21 4 1) ∷ []

abbrev never : Text → Text → Bool
never value pattern = true

logged-rows :
    rows_for plain never (session_of member) by_one logged tenant
    ≡ of_tenant (entry 21 4 1) ∷ of_tenant (entry 22 9 1) ∷ of_tenant (entry 24 9 1) ∷ []
unfolding common_where tenant_rows admits
logged-rows = refl

logged-Distinct : Distinct (rows_for plain never (session_of member) by_one logged tenant)
logged-Distinct = rw logged-rows (((inr refl, (inr refl, tt)), ((inr refl, tt), (tt, tt))))

follow_complete_example :
    follow plain never (session_of member) by_one logged 4 none
    ≡ some (order_by (rows_for plain never (session_of member) by_one logged tenant))
follow_complete_example =
    follow_complete plain never (session_of member) by_one logged plain-IsCodec (omega arith)
      logged-Distinct 4 (rw logged-rows (omega arith))

-- The client reads the three rows of its tenant, newest first.
newest_first_is :
    order_by (rows_for plain never (session_of member) by_one logged tenant) ≡ newest_first
newest_first_is = rw logged-rows refl

member_may_read : is_valid_context member ≡ true
unfolding is_valid_context email_matches
member_may_read = refl

abbrev first_page : ListResult
first_page = record {
  items = of_tenant (entry 24 9 1) ∷ [];
  next_cursor = some (10 ∷ 0 ∷ 24 ∷ []);
  prev_cursor = none;
  has_more = true;
}

first_page_is : list plain never (session_of member) by_one none logged ≡ ok first_page
unfolding list fetch common_where tenant_rows admits encode_cursor
first_page_is = refl

list-IsOwn_example : All (IsOwn member) first_page.items
list-IsOwn_example =
    list-IsOwn member member_may_read refl plain never by_one none logged first_page refl
      first_page_is

detail_is : get_audit_activity (session_of member) tenant 22 logged ≡ ok (of_tenant (entry 22 9 1))
unfolding get_audit_activity tenant_rows admits
detail_is = refl

get_audit_activity-IsOwn_example : IsOwn member (of_tenant (entry 22 9 1))
get_audit_activity-IsOwn_example =
    get_audit_activity-IsOwn member member_may_read refl 22 logged (of_tenant (entry 22 9 1))
      detail_is

decode_cursor-encode_cursor_example :
    decode_cursor plain (encode_cursor plain 5 1000) ≡ ok (5, 1000)
decode_cursor-encode_cursor_example = decode_cursor-encode_cursor plain plain-IsCodec 5 1000
