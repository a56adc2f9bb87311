-- ===== src/Database/Session.antt =====
-- `get_tenant_session` (src/admin_backend/db/session.py) and what its settings make visible.
use cortex_cm.Base.{◌≡◌, Bool, true, false, ◌||◌, Option, none, some, arith, ◌==◌, ==_iff}
use cortex_cm.Models.Columns.{Uuid}
use cortex_cm.Models.TenantUsers.{ActorUserType, platform, tenant}
use cortex_cm.Auth.Context.{AuthContext, is_valid_context, is_valid_context-tenant}

-- The settings `app.tenant_id` and `app.user_type` of a transaction.
pub record Session : Type 0 where
  pub tenant_id : Option Uuid
  pub user_type : ActorUserType

-- Both settings come from the caller's identity and from nothing else.
abbrev pub session_of : AuthContext → Session
session_of a = record { tenant_id = a.tenant_id; user_type = a.user_type }

abbrev is_platform : ActorUserType → Bool
is_platform platform = true
is_platform tenant = false

-- `col = NULLIF(current_setting('app.tenant_id'), '')::uuid`: a null is equal to nothing.
abbrev is_setting : Option Uuid → Uuid → Bool
is_setting none col = false
is_setting (some t) col = col == t

-- The USING and WITH CHECK clause of the policies, on the tenant of a row.
unfoldable pub admits : Session → Uuid → Bool
admits s row_tenant = is_setting s.tenant_id row_tenant || is_platform s.user_type

-- A row that the policy admits for a valid tenant caller has the tenant that the caller names.
pub admits_tenant :
    (a : AuthContext) (row_tenant : Uuid)
    → is_valid_context a ≡ true
    → a.user_type ≡ tenant
    → admits (session_of a) row_tenant ≡ true
    → a.tenant_id ≡ some row_tenant
unfolding admits
admits_tenant a row v ty h =
    let (t, e) = is_valid_context-tenant a v ty in ground (arith, ==_iff row t)

pub admits_platform : (s : Session) (t : Uuid) → s.user_type ≡ platform → admits s t ≡ true
unfolding admits
admits_platform s t e = ground arith
