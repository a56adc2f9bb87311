-- ===== src/Auth/Context.antt =====
-- `AuthContext` of src/admin_backend/auth/context.py: the identity of a caller, with the
-- validators that run when one is constructed.
use cortex_cm.Base.{
  ℕ, ◌≡◌, Bool, true, false, not, ◌&&◌, Option, none, some, List, [], ◌∷◌, arith, Text,
}
use cortex_cm.Models.Columns.{Uuid}
use cortex_cm.Models.TenantUsers.{ActorUserType, tenant}
use cortex_cm.Auth.Email.{email_matches}

-- `aud: str | list[str]`
pub data Audience : Type 0 where
  one : Text → Audience
  many : List Text → Audience

pub record AuthContext : Type 0 where
  pub sub : Text
  pub iss : Text
  pub aud : Audience
  pub exp : ℕ
  pub user_id : Uuid
  pub tenant_id : Option Uuid
  pub user_type : ActorUserType
  pub email : Text

abbrev is_empty : Text → Bool
is_empty [] = true
is_empty (c ∷ t) = false

-- `user_type == "TENANT" and tenant_id is None`
abbrev lacks_tenant : ActorUserType → Option Uuid → Bool
lacks_tenant tenant none = true
lacks_tenant _ _ = false

-- The three validators. A record that fails them is never constructed.
unfoldable pub is_valid_context : AuthContext → Bool
is_valid_context a =
    email_matches a.email
    && not (is_empty a.sub)
    && not (is_empty a.iss)
    && not (lacks_tenant a.user_type a.tenant_id)

-- A valid context of a tenant's user names its tenant.
pub is_valid_context-tenant :
    (a : AuthContext)
    → is_valid_context a ≡ true
    → a.user_type ≡ tenant
    → (t : Uuid) × (a.tenant_id ≡ some t)
unfolding is_valid_context
is_valid_context-tenant a v e = ground arith
