-- ===== src/Auth/Verify.antt =====
-- The two verifiers: `StubAuthClient.verify` of src/admin_backend/auth/stub.py and
-- `Auth0Client.verify` of src/admin_backend/auth/auth0.py.
use cortex_cm.Base.{ℕ, ◌≡◌, ◌⊎◌, ◌↔◌, refl, inl, inr, Option, none, some, [], ◌∷◌, arith, Text}
use cortex_cm.Result.{Result, ok, raise}
use cortex_cm.Errors.{Error, client_error, auth_missing, auth_invalid, invalid_tenant_id, uncaught}
use cortex_cm.Models.Columns.{Uuid}
use cortex_cm.Auth.Context.{AuthContext}
use cortex_cm.Auth.Claims.{Claims, Claim, claims_to_auth_context, claims_to_auth_context-refusal}

-- The exceptions of the JWT library's `decode` that the verifiers name; `invalid_token` is any
-- other subclass of its `InvalidTokenError`.
pub data JwtError : Type 0 where
  expired_signature invalid_audience invalid_issuer invalid_signature decode_error invalid_token :
      JwtError

-- What `decode` comes to: the payload, one of these exceptions, or an exception of another class, such
-- as the `InvalidKeyError` or the `TypeError` of a key that does not fit the algorithm.
pub data Decoded : Type 0 where
  payload : Claims → Decoded
  refused : JwtError → Decoded
  failed : Decoded

-- What asking the key set for the key of a token comes to: the key, the exception
-- `PyJWKClientError`, or another exception.
pub data KeyLookup (Key : Type 0) : Type 0 where
  key : Key → KeyLookup Key
  jwk_client_error : KeyLookup Key
  other_error : KeyLookup Key

-- The library: `decode` is `jwt.decode` under RS256, the audience and the issuer of the settings.
pub record Jwt : Type 1 where
  pub Key : Type 0
  pub decode : Key → Text → Decoded
  pub get_signing_key : Text → KeyLookup Key
  pub parse_uuid : Text → Option Uuid
  pub coerce_int : Claim → Option ℕ

-- `if not jwt_string`
abbrev given : Option Text → Option Text
given none = none
given (some []) = none
given (some (c ∷ t)) = some (c ∷ t)

-- The `except` clauses of the stub stop short of `InvalidTokenError` itself.
abbrev stub_maps : JwtError → Error
stub_maps invalid_token = uncaught
stub_maps _ = client_error auth_invalid

-- `Auth0Client` has a last clause for it.
abbrev auth0_maps : JwtError → Error
auth0_maps _ = client_error auth_invalid

module _ (j : Jwt) where
  abbrev identify : (JwtError → Error) → Decoded → Result AuthContext
  identify maps (payload p) = claims_to_auth_context j.parse_uuid j.coerce_int p
  identify maps (refused e) = raise (maps e)
  identify maps failed = raise uncaught

  abbrev stub_on : j.Key → Option Text → Result AuthContext
  stub_on public_key none = raise (client_error auth_missing)
  stub_on public_key (some t) = identify stub_maps (j.decode public_key t)

  unfoldable pub stub_verify : j.Key → Option Text → Result AuthContext
  stub_verify public_key jwt_string = stub_on public_key (given jwt_string)

  abbrev auth0_with : Text → KeyLookup j.Key → Result AuthContext
  auth0_with t (key k) = identify auth0_maps (j.decode k t)
  auth0_with t jwk_client_error = raise (client_error auth_invalid)
  auth0_with t other_error = raise uncaught

  abbrev auth0_on : Option Text → Result AuthContext
  auth0_on none = raise (client_error auth_missing)
  auth0_on (some t) = auth0_with t (j.get_signing_key t)

  unfoldable pub auth0_verify : Option Text → Result AuthContext
  auth0_verify jwt_string = auth0_on (given jwt_string)

  -- What stands behind an identity: a token that was given, the key that the key set has for it,
  -- a payload that the library verified under that key, and claims that map to the identity.
  pub record IsVerified (jwt_string : Option Text) (a : AuthContext) : Type 0 where
    pub token : Text
    pub signing_key : j.Key
    pub claims : Claims
    pub is_given : jwt_string ≡ some token
    pub has_key : j.get_signing_key token ≡ key signing_key
    pub is_decoded : j.decode signing_key token ≡ payload claims
    pub is_mapped : claims_to_auth_context j.parse_uuid j.coerce_int claims ≡ ok a

  identify_sound :
      (maps : JwtError → Error) (d : Decoded) {a : AuthContext}
      → identify maps d ≡ ok a
      → (p : Claims) × (d ≡ payload p) × (claims_to_auth_context j.parse_uuid j.coerce_int p ≡ ok a)
  identify_sound maps (payload p) e = (p, refl, e)
  identify_sound maps (refused x) e = absurd (cc)
  identify_sound maps failed e = absurd (cc)

  auth0_with_sound :
      (t : Text) (l : KeyLookup j.Key) {a : AuthContext}
      → auth0_with t l ≡ ok a
      → (k : j.Key) × (p : Claims) × (l ≡ key k)
        × (j.decode k t ≡ payload p)
        × (claims_to_auth_context j.parse_uuid j.coerce_int p ≡ ok a)
  auth0_with_sound t (key k) e =
      let (p, d, m) = identify_sound auth0_maps (j.decode k t) e in (k, p, refl, d, m)
  auth0_with_sound t jwk_client_error e = absurd (cc)
  auth0_with_sound t other_error e = absurd (cc)

  -- An identity comes out of `verify` only for a given token with a key from the key set, a payload
  -- that the library decodes under that key, and claims that map to the identity.
  pub auth0_verify-IsVerified :
      (jwt_string : Option Text) (a : AuthContext)
      → auth0_verify jwt_string ≡ ok a
      → IsVerified jwt_string a
  unfolding auth0_verify
  auth0_verify-IsVerified none a e = absurd (cc)
  auth0_verify-IsVerified (some []) a e = absurd (cc)
  auth0_verify-IsVerified (some (c ∷ t)) a e =
      let (k, p, l, d, m) = auth0_with_sound (c ∷ t) (j.get_signing_key (c ∷ t)) e in
      record {
        token = c ∷ t;
        signing_key = k;
        claims = p;
        is_given = refl;
        has_key = l;
        is_decoded = d;
        is_mapped = m;
      }

  identify-uncaught : (d : Decoded) → identify auth0_maps d ≡ raise uncaught → d ≡ failed
  identify-uncaught (payload p) e =
      absurd (grind (arith, claims_to_auth_context-refusal j.parse_uuid j.coerce_int p uncaught e))
  identify-uncaught (refused x) e = absurd (cc)
  identify-uncaught failed e = refl

  auth0_with-uncaught :
      (t : Text) (l : KeyLookup j.Key)
      → auth0_with t l ≡ raise uncaught
      → (l ≡ other_error) ⊎ ((k : j.Key) × (l ≡ key k) × (j.decode k t ≡ failed))
  auth0_with-uncaught t (key k) e = inr (k, refl, identify-uncaught (j.decode k t) e)
  auth0_with-uncaught t jwk_client_error e = absurd (cc)
  auth0_with-uncaught t other_error e = inl refl

  -- On a token that was given, `verify` lets an exception through uncaught exactly in two cases: the
  -- key lookup raises one besides `PyJWKClientError`, or there is a key and the decoding under it
  -- raises one besides `InvalidTokenError`.
  pub auth0_verify-uncaught_iff :
      (c : ℕ) (t : Text)
      → (auth0_verify (some (c ∷ t)) ≡ raise uncaught) ↔ (
          (j.get_signing_key (c ∷ t) ≡ other_error)
          ⊎ ((k : j.Key) × (j.get_signing_key (c ∷ t) ≡ key k) × (j.decode k (c ∷ t) ≡ failed)))
  unfolding auth0_verify
  auth0_verify-uncaught_iff c t = (
    auth0_with-uncaught (c ∷ t) (j.get_signing_key (c ∷ t)),
    λ e. elim e [ inl q ↦ rw q refl | inr (k, q, d) ↦ rw (q, d) refl ],
  )

  identify-refusal :
      (d : Decoded) (e : Error)
      → identify auth0_maps d ≡ raise e
      → (e ≡ client_error auth_invalid) ⊎ (e ≡ client_error invalid_tenant_id) ⊎ (e ≡ uncaught)
  identify-refusal (payload p) e h =
      ground (arith, claims_to_auth_context-refusal j.parse_uuid j.coerce_int p e h)
  identify-refusal (refused x) e h = inl (cc)
  identify-refusal failed e h = ground arith

  -- The errors that `verify` raises are the three 401s, or the uncaught one.
  pub auth0_verify-refusal :
      (t : Option Text) (e : Error)
      → auth0_verify t ≡ raise e
      → (e ≡ client_error auth_missing)
        ⊎ (e ≡ client_error auth_invalid)
        ⊎ (e ≡ client_error invalid_tenant_id)
        ⊎ (e ≡ uncaught)
  unfolding auth0_verify
  auth0_verify-refusal none e h = inl (cc)
  auth0_verify-refusal (some []) e h = inl (cc)
  auth0_verify-refusal (some (c ∷ t)) e h = go (j.get_signing_key (c ∷ t)) h
    where
      go :
          (l : KeyLookup j.Key)
          → auth0_with (c ∷ t) l ≡ raise e
          → (e ≡ client_error auth_missing)
            ⊎ (e ≡ client_error auth_invalid)
            ⊎ (e ≡ client_error invalid_tenant_id)
            ⊎ (e ≡ uncaught)
      go (key k) h' = ground (arith, identify-refusal (j.decode k (c ∷ t)) e h')
      go jwk_client_error h' = ground arith
      go other_error h' = ground arith
