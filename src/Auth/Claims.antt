-- ===== src/Auth/Claims.antt =====
-- `claims_to_auth_context` of src/admin_backend/auth/claims.py: a verified token to an identity.
use cortex_cm.Base.{
  ℕ, ◌≡◌, ◌⊎◌, true, Option, none, some, List, [], ◌∷◌, arith, Text, text_eq, codes, if◌then◌else◌,
  inl, inr, Option-cases,
}
use cortex_cm.Result.{Result, ok, raise, ◌>>=◌, or_raise, >>=-eq-ok}
use cortex_cm.Errors.{Error, client_error, auth_invalid, invalid_tenant_id}
use cortex_cm.Models.Columns.{Uuid}
use cortex_cm.Models.TenantUsers.{ActorUserType, platform, tenant}
use cortex_cm.Auth.Context.{Audience, one, many, AuthContext, is_valid_context}

-- The value of one claim. A claim that is not there is `null`: `get` returns None for it, and the
-- `KeyError` of `payload["sub"]` is answered as a null is.
pub data Claim : Type 0 where
  null : Claim
  str : Text → Claim
  num : ℕ → Claim
  texts : List Text → Claim
  other : Claim

-- The claims that the service reads; the last four under the namespace of its own domain.
pub record Claims : Type 0 where
  pub sub : Claim
  pub iss : Claim
  pub aud : Claim
  pub exp : Claim
  pub tenant_id : Claim
  pub user_id : Claim
  pub user_type : Claim
  pub email : Claim

abbrev as_text : Claim → Option Text
as_text (str t) = some t
as_text _ = none

-- `if not raw: raise` before the text is used.
abbrev non_empty : Claim → Option Text
non_empty (str []) = none
non_empty (str (c ∷ t)) = some (c ∷ t)
non_empty _ = none

abbrev as_audience : Claim → Option Audience
as_audience (str t) = some (one t)
as_audience (texts ts) = some (many ts)
as_audience _ = none

-- `user_type not in ("PLATFORM", "TENANT")`
abbrev as_user_type : Claim → Option ActorUserType
as_user_type (str t) =
    if text_eq t (codes "PLATFORM")
    then some platform
    else if text_eq t (codes "TENANT")
    then some tenant
    else none
as_user_type _ = none

-- `AuthContext(...)`: the validators have the last word.
abbrev construct : AuthContext → Result AuthContext
construct a = if is_valid_context a then ok a else raise (client_error auth_invalid)

-- `parse_uuid` is `uuid.UUID` on a text, `coerce_int` the integer that the schema library reads
-- from the `exp` claim.
module _ (parse_uuid : Text → Option Uuid) (coerce_int : Claim → Option ℕ) where
  -- `UUID(raw)`: every value but a text makes it raise.
  abbrev uuid_of : Claim → Option Uuid
  uuid_of (str t) = parse_uuid t
  uuid_of _ = none

  abbrev user_claim : Claim → Option Uuid
  user_claim (str []) = none
  user_claim c = uuid_of c

  abbrev tenant_claim : Claim → Result (Option Uuid)
  tenant_claim null = ok none
  tenant_claim c = do t ← or_raise (uuid_of c) (client_error invalid_tenant_id); ok (some t)

  unfoldable pub claims_to_auth_context : Claims → Result AuthContext
  claims_to_auth_context p = do
    t ← tenant_claim p.tenant_id
    u ← or_raise (user_claim p.user_id) (client_error auth_invalid)
    ty ← or_raise (as_user_type p.user_type) (client_error auth_invalid)
    email ← or_raise (non_empty p.email) (client_error auth_invalid)
    sub ← or_raise (as_text p.sub) (client_error auth_invalid)
    iss ← or_raise (as_text p.iss) (client_error auth_invalid)
    aud ← or_raise (as_audience p.aud) (client_error auth_invalid)
    exp ← or_raise (coerce_int p.exp) (client_error auth_invalid)
    construct (record {
      sub = sub;
      iss = iss;
      aud = aud;
      exp = exp;
      user_id = u;
      tenant_id = t;
      user_type = ty;
      email = email;
    })

  tenant_claim_sound :
      (c : Claim) {t : Option Uuid}
      → tenant_claim c ≡ ok t
      → ((c ≡ null) × (t ≡ none)) ⊎ ((u : Uuid) × (uuid_of c ≡ some u) × (t ≡ some u))
  tenant_claim_sound null e = ground arith
  tenant_claim_sound (str x) e = elim (Option-cases (parse_uuid x)) [
    | inl q ↦ let e' = rw q at e in absurd (cc)
    | inr (u, q) ↦ let e' = rw q at e in inr (u, q, ground arith)
  ]
  tenant_claim_sound (num n) e = absurd (cc)
  tenant_claim_sound (texts ts) e = absurd (cc)
  tenant_claim_sound other e = absurd (cc)

  -- The fields of an identity in terms of the claims.
  pub record Reads (p : Claims) (a : AuthContext) : Type 0 where
    pub is_valid : is_valid_context a ≡ true
    pub reads_user_id : user_claim p.user_id ≡ some a.user_id
    pub reads_tenant_id :
        ((p.tenant_id ≡ null) × (a.tenant_id ≡ none))
        ⊎ ((u : Uuid) × (uuid_of p.tenant_id ≡ some u) × (a.tenant_id ≡ some u))
    pub reads_user_type : as_user_type p.user_type ≡ some a.user_type
    pub reads_email : non_empty p.email ≡ some a.email

  -- A mapping that succeeds has read the identity from the claims: it passes the validators; user id,
  -- user type and email are those of the claims; and the tenant id is none only for a claim that is
  -- null or not there, and else the id that the claim parses to.
  pub claims_to_auth_context_sound :
      (p : Claims) (a : AuthContext) → claims_to_auth_context p ≡ ok a → Reads p a
  unfolding claims_to_auth_context
  claims_to_auth_context_sound p a e =
      let (t, et, rest) = >>=-eq-ok (tenant_claim p.tenant_id) _ e in
      record {
        is_valid = ground arith;
        reads_user_id = ground arith;
        reads_tenant_id = ground (arith, tenant_claim_sound p.tenant_id et);
        reads_user_type = ground arith;
        reads_email = ground arith;
      }

  -- The error of a refusal is one of two: `AuthInvalidError` and `InvalidTenantIdError`.
  pub claims_to_auth_context-refusal :
      (p : Claims) (e : Error)
      → claims_to_auth_context p ≡ raise e
      → (e ≡ client_error auth_invalid) ⊎ (e ≡ client_error invalid_tenant_id)
  unfolding claims_to_auth_context
  claims_to_auth_context-refusal p e h = ground arith
