-- ===== src/Auth/Middleware.antt =====
-- `AuthMiddleware.dispatch` of src/admin_backend/middleware/auth.py.
use Prim.Native.String.{String}
use cortex_cm.Base.{
  ◌≡◌, ◌⊎◌, refl, ◌∙◌, inl, inr, Bool, true, false, Option, none, some, List, [], ◌∷◌, arith, Text,
  text_eq, codes, if◌then◌else◌, any, Bool-cases, ◌==◌,
}
use mathlib.Core.List.{reverse}
use cortex_cm.Result.{Result, ok, raise}
use cortex_cm.Errors.{AdminBackendError, client, admin, uncaught, auth_missing, http_status}
use cortex_cm.Errors.Payload.{Payload, build_error_payload}
use cortex_cm.Auth.Context.{AuthContext}
use cortex_cm.Auth.Email.{is_space}
use cortex_cm.Auth.Verify.{Jwt, auth0_verify, auth0_verify-refusal}

abbrev public_paths : List Text
public_paths =
    codes "/api/v1/health"
    ∷ codes "/api/v1/ready"
    ∷ codes "/api/v1/openapi.json"
    ∷ codes "/api/v1/docs"
    ∷ codes "/api/v1/redoc"
    ∷ codes "/metrics"
    ∷ []

-- `request.url.path in PUBLIC_PATHS`
unfoldable pub is_public : Text → Bool
is_public path = any (text_eq path) public_paths

-- What is left of a text behind a prefix.
abbrev after_prefix : Text → Text → Option Text
after_prefix [] t = some t
after_prefix (p ∷ ps) [] = none
after_prefix (p ∷ ps) (c ∷ t) = let rest = after_prefix ps t in if p == c then rest else none

abbrev lstrip : Text → Text
lstrip [] = []
lstrip (c ∷ t) = let rest = lstrip t in if is_space c then rest else c ∷ t

abbrev strip : Text → Text
strip t = reverse (lstrip (reverse (lstrip t)))

abbrev pub bearer_token : Text → Option Text
bearer_token header = elim (after_prefix (codes "Bearer ") header) [
  | none ↦ none
  | some t ↦ (elim (strip t) [ [] ↦ none | c ∷ s ↦ some (c ∷ s) ])
]

-- What the middleware does with a request: hand it on, with the identity that it has put into
-- `request.state.auth` if any, answer it, or let an exception out.
pub data Outcome : Type 0 where
  passed_on : Option AuthContext → Outcome
  answered : Payload → Outcome
  crashed : Outcome

-- The `except AdminBackendError` clause.
abbrev settle : Option String → Result AuthContext → Outcome
settle rid (ok a) = passed_on (some a)
settle rid (raise (admin e)) = answered (build_error_payload e rid)
settle rid (raise uncaught) = crashed

module _ (verify : Option Text → Result AuthContext) where
  abbrev authenticate : Option Text → Result AuthContext
  authenticate none = raise (admin (client auth_missing))
  authenticate (some t) = verify (some t)

  -- `header` is the `authorization` header, the empty text if there is none.
  unfoldable pub dispatch : Text → Text → Option String → Outcome
  dispatch path header rid =
      if is_public path then passed_on none else settle rid (authenticate (bearer_token header))

  settle-passed_on :
      (rid : Option String) (r : Result AuthContext) {who : Option AuthContext}
      → settle rid r ≡ passed_on who
      → (a : AuthContext) × (r ≡ ok a) × (who ≡ some a)
  settle-passed_on rid (ok a) e = (a, refl, cc)
  settle-passed_on rid (raise (admin x)) e = absurd (cc)
  settle-passed_on rid (raise uncaught) e = absurd (cc)

  authenticate-eq-ok :
      (t : Option Text) {a : AuthContext}
      → authenticate t ≡ ok a
      → (s : Text) × (t ≡ some s) × (verify (some s) ≡ ok a)
  authenticate-eq-ok none e = absurd (cc)
  authenticate-eq-ok (some s) e = (s, refl, e)

  -- A request is handed on in two cases alone: on a public path, and then with no identity, or
  -- with the identity that `verify` has found for the bearer token of its header.
  pub dispatch-passes :
      (path header : Text) (rid : Option String) (who : Option AuthContext)
      → dispatch path header rid ≡ passed_on who
      → ((is_public path ≡ true) × (who ≡ none))
        ⊎ ((a : AuthContext) × (t : Text) × (is_public path ≡ false)
            × (who ≡ some a)
            × (bearer_token header ≡ some t)
            × (verify (some t) ≡ ok a))
  unfolding dispatch
  dispatch-passes path header rid who e = elim (Bool-cases (is_public path)) [
    | inl p ↦ inl (p, ground arith)
    | inr p ↦
        let (a, checked, found) =
          settle-passed_on rid (authenticate (bearer_token header)) (rw p at e) in
        let (t, bearer, verified) = authenticate-eq-ok (bearer_token header) checked in
        inr (a, t, p, found, bearer, verified)
  ]

settle-answered :
    (rid : Option String) (r : Result AuthContext) {p : Payload}
    → settle rid r ≡ answered p
    → (x : AdminBackendError) × (r ≡ raise (admin x))
      × (p.status ≡ (build_error_payload x rid).status)
settle-answered rid (ok a) e = absurd (cc)
settle-answered rid (raise (admin x)) e = (x, refl, ground arith)
settle-answered rid (raise uncaught) e = absurd (cc)

module _ (j : Jwt) where
  auth0_refusal :
      (t : Option Text) (e : AdminBackendError)
      → authenticate (auth0_verify j) t ≡ raise (admin e)
      → (rid : Option String) → (build_error_payload e rid).status ≡ 401
  unfolding build_error_payload http_status
  auth0_refusal none e h rid = ground arith
  auth0_refusal (some t) e h rid = ground (arith, auth0_verify-refusal j (some t) (admin e) h)

  -- Under `Auth0Client` every answer of the middleware's own is a 401.
  pub dispatch-auth0-401 :
      (path header : Text) (rid : Option String) (p : Payload)
      → dispatch (auth0_verify j) path header rid ≡ answered p
      → p.status ≡ 401
  unfolding dispatch
  dispatch-auth0-401 path header rid p e = elim (Bool-cases (is_public path)) [
    | inl q ↦ absurd (ground arith)
    | inr q ↦
        let (x, raised, shown) =
          settle-answered rid (authenticate (auth0_verify j) (bearer_token header)) (rw q at e) in
        shown ∙ auth0_refusal (bearer_token header) x raised rid
  ]
