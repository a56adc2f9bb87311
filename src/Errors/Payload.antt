-- ===== src/Errors/Payload.antt =====
-- `build_error_payload` (src/admin_backend/errors.py), and what it tells a client.
use Prim.Native.String.{String}
use text.Mathlib.Text.{◌==◌ as str_eq}
use text.Mathlib.TextEquality.{eq_iff}
use cortex_cm.Base.{
  ℕ, ◌≤◌, ◌<◌, ◌≡◌, ◌≢◌, refl, Bool, Option, none, some, List, [], ◌∷◌, if◌then◌else◌, arith,
}
use cortex_cm.Errors.{
  ClientError, ServerError, AdminBackendError, client, server, http_status, code, public_message,
}

-- The JSON body. Its `details` entry is null on both paths.
pub record ErrorBody : Type 0 where
  pub code : String
  pub message : String
  pub request_id : Option String

pub record Payload : Type 0 where
  pub status : ℕ
  pub body : ErrorBody
  pub headers : List (String × String)

-- `{"X-Request-Id": request_id} if request_id else {}`: an empty text is false too.
abbrev id_headers : Option String → List (String × String)
id_headers none = []
id_headers (some rid) = if str_eq rid "" then [] else ("X-Request-Id", rid) ∷ []

unfoldable pub build_error_payload : AdminBackendError → Option String → Payload
build_error_payload (server e) rid = record {
  status = 500;
  body = record {
    code = "INTERNAL_ERROR";
    message = "An internal error occurred";
    request_id = rid;
  };
  headers = id_headers rid;
}
build_error_payload (client e) rid = record {
  status = http_status e;
  body = record { code = code e; message = public_message e; request_id = rid };
  headers = id_headers rid;
}

http_status-4xx : (e : ClientError) → (400 ≤ http_status e) × (http_status e < 500)
unfolding http_status
http_status-4xx ClientError.auth_missing = omega arith
http_status-4xx _ = omega arith

-- No client error wears the code of a server error.
code-ne-internal : (e : ClientError) → str_eq (code e) "INTERNAL_ERROR" ≡ Bool.false
unfolding code
code-ne-internal ClientError.auth_missing = refl
code-ne-internal _ = refl

-- Two server errors give one and the same answer, and it is told apart from the answer to every
-- client error by its status, which lies in 400 to 499 for those, and by its code.
pub build_error_payload-discloses :
    (e f : ServerError) (c : ClientError) (rid : Option String)
    → (build_error_payload (server e) rid ≡ build_error_payload (server f) rid)
      × ((build_error_payload (server e) rid).status ≡ 500)
      × (400 ≤ (build_error_payload (client c) rid).status)
      × ((build_error_payload (client c) rid).status < 500)
      × ((build_error_payload (client c) rid).body.code
          ≢ (build_error_payload (server e) rid).body.code)
unfolding build_error_payload
build_error_payload-discloses e f c rid =
    let (least, most) = http_status-4xx c in
    (refl, refl, least, most, ground (arith, eq_iff (code c) "INTERNAL_ERROR", code-ne-internal c))
