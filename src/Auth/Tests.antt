-- ===== src/Auth/Tests.antt =====
-- Runs of the verifiers and the middleware with a small stand-in for the JWT library.
use cortex_cm.Base.{
  ℕ, ◌≡◌, ◌↔◌, ◌⊎◌, refl, true, false, Option, none, some, [], Text, codes, text_eq, if◌then◌else◌,
}
use cortex_cm.Result.{ok, raise}
use cortex_cm.Errors.{client, client_error, auth_missing, invalid_tenant_id, uncaught}
use cortex_cm.Errors.Payload.{Payload, build_error_payload}
use cortex_cm.Models.Columns.{Uuid}
use cortex_cm.Auth.Context.{AuthContext, is_valid_context}
use cortex_cm.Auth.Email.{is_space, no_space, email_matches}
use cortex_cm.Auth.Claims.{
  Claim, str, num, Claims, claims_to_auth_context, Reads, claims_to_auth_context_sound,
}
use cortex_cm.Auth.Verify.{
  JwtError, Decoded, payload, refused, failed, KeyLookup, key, other_error, Jwt, auth0_verify,
  IsVerified, auth0_verify-IsVerified, auth0_verify-uncaught_iff,
}
use cortex_cm.Auth.Middleware.{
  is_public, bearer_token, passed_on, answered, dispatch, dispatch-passes,
}
use cortex_cm.Samples.{member}

abbrev parse_uuid : Text → Option Uuid
parse_uuid t =
    if text_eq t (codes "7") then some 7 else if text_eq t (codes "1") then some 1 else none

abbrev coerce_int : Claim → Option ℕ
coerce_int (num n) = some n
coerce_int _ = none

abbrev member_claims : Claims
member_claims = record {
  sub = str (codes "auth0|7");
  iss = str (codes "https://issuer/");
  aud = str (codes "api");
  exp = num 99;
  tenant_id = str (codes "1");
  user_id = str (codes "7");
  user_type = str (codes "TENANT");
  email = str (codes "a@b.co");
}

abbrev bad_claims : Claims
bad_claims = record member_claims { tenant_id = str (codes "x") }

-- The key 5 verifies the token "good" and does not fit "odd"; "bad" makes the key lookup itself
-- fail.
abbrev decode : ℕ → Text → Decoded
decode k t =
    if text_eq t (codes "good")
    then payload member_claims
    else if text_eq t (codes "odd")
    then failed
    else refused JwtError.invalid_signature

abbrev get_signing_key : Text → KeyLookup ℕ
get_signing_key t = if text_eq t (codes "bad") then other_error else key 5

abbrev library : Jwt
library = record {
  Key = ℕ;
  decode = decode;
  get_signing_key = get_signing_key;
  parse_uuid = parse_uuid;
  coerce_int = coerce_int;
}

member_claims_map : claims_to_auth_context parse_uuid coerce_int member_claims ≡ ok member
unfolding claims_to_auth_context is_valid_context email_matches
member_claims_map = refl

claims_to_auth_context_sound_example : Reads parse_uuid coerce_int member_claims member
claims_to_auth_context_sound_example =
    claims_to_auth_context_sound parse_uuid coerce_int member_claims member member_claims_map

bad_claims_map :
    claims_to_auth_context parse_uuid coerce_int bad_claims ≡ raise (client_error invalid_tenant_id)
unfolding claims_to_auth_context
bad_claims_map = refl

good_verifies : auth0_verify library (some (codes "good")) ≡ ok member
unfolding auth0_verify claims_to_auth_context is_valid_context email_matches
good_verifies = refl

auth0_verify-IsVerified_example : IsVerified library (some (codes "good")) member
auth0_verify-IsVerified_example =
    auth0_verify-IsVerified library (some (codes "good")) member good_verifies

auth0_verify-uncaught_iff_example : (auth0_verify library (some (codes "odd")) ≡ raise uncaught) ↔ (
    (get_signing_key (codes "odd") ≡ other_error)
    ⊎ ((k : ℕ) × (get_signing_key (codes "odd") ≡ key k) × (decode k (codes "odd") ≡ failed)))
auth0_verify-uncaught_iff_example = auth0_verify-uncaught_iff library b'o' (codes "dd")

odd_is_uncaught : auth0_verify library (some (codes "odd")) ≡ raise uncaught
unfolding auth0_verify
odd_is_uncaught = refl

bad_is_uncaught : auth0_verify library (some (codes "bad")) ≡ raise uncaught
unfolding auth0_verify
bad_is_uncaught = refl

good_passes :
    dispatch (auth0_verify library) (codes "/api/v1/stores") (codes "Bearer good") none
    ≡ passed_on (some member)
unfolding dispatch is_public is_space auth0_verify claims_to_auth_context is_valid_context
    email_matches
good_passes = refl

dispatch-passes_example :
    ((is_public (codes "/api/v1/stores") ≡ true) × (some member ≡ none))
    ⊎ ((a : AuthContext) × (t : Text) × (is_public (codes "/api/v1/stores") ≡ false)
        × (some member ≡ some a)
        × (bearer_token (codes "Bearer good") ≡ some t)
        × (auth0_verify library (some t) ≡ ok a))
dispatch-passes_example =
    dispatch-passes (auth0_verify library) (codes "/api/v1/stores") (codes "Bearer good") none
      (some member) good_passes

abbrev missing : Payload
missing = build_error_payload (client auth_missing) (some "r1")

none_answered :
    dispatch (auth0_verify library) (codes "/api/v1/stores") [] (some "r1") ≡ answered missing
unfolding dispatch is_public
none_answered = refl

plain_address : email_matches (codes "a@b.co") ≡ true
unfolding email_matches
plain_address = refl

plain_no_space : no_space (codes "a@b.co") ≡ true
unfolding is_space
plain_no_space = refl
