-- ===== src/Audit/Cursor.antt =====
-- The cursors of the audit listing: `_encode_cursor` and `_decode_cursor` of
-- src/admin_backend/repositories/audit_logs.py.
use cortex_cm.Base.{
  ◌≡◌, refl, Option, none, some, List, [], ◌∷◌, Text, codes, text_eq, if◌then◌else◌,
}
use cortex_cm.Errors.{Error, client_error, invalid_cursor}
use cortex_cm.Models.Columns.{Uuid, Timestamp}
use cortex_cm.Result.{Result, ok, or_raise, ◌>>=◌}

-- A value of a decoded dict: a text, or anything else with what `str` makes of it.
pub data Value : Type 0 where
  text : Text → Value
  other : Text → Value

-- What `json.loads` returns: a dict, or something else.
pub data Loaded : Type 0 where
  dict : List (Text × Value) → Loaded
  not_dict : Loaded

-- The Python libraries that a cursor goes through; `none` where they raise.
pub record Codec : Type 0 where
  pub b64encode : Text → Text
  pub b64decode : Text → Option Text
  pub dumps : List (Text × Value) → Text
  pub loads : Text → Option Loaded
  pub isoformat : Timestamp → Text
  pub fromisoformat : Text → Option Timestamp
  pub uuid_str : Uuid → Text
  pub parse_uuid : Text → Option Uuid

abbrev str_of : Value → Text
str_of (text t) = t
str_of (other t) = t

abbrev field_of : Text → List (Text × Value) → Option Value
field_of k [] = none
field_of k ((name, v) ∷ rest) = if text_eq name k then some v else field_of k rest

abbrev cursor_error : Error
cursor_error = client_error invalid_cursor

-- `isinstance(payload, dict)`, and a key that is to be there
abbrev payload_field : Loaded → Text → Option Value
payload_field (dict fields) k = field_of k fields
payload_field not_dict k = none

-- The dict of a cursor.
abbrev pub payload_of : Text → Text → List (Text × Value)
payload_of ts row_id = (codes "ts", text ts) ∷ (codes "id", text row_id) ∷ []

unfoldable pub encode_cursor : Codec → Timestamp → Uuid → Text
encode_cursor c timestamp row_id =
    c.b64encode (c.dumps (payload_of (c.isoformat timestamp) (c.uuid_str row_id)))

unfoldable pub decode_cursor : Codec → Text → Result (Timestamp × Uuid)
decode_cursor c cursor = or_raise (c.b64decode cursor) cursor_error >>= λ raw.
    or_raise (c.loads raw) cursor_error >>= λ payload.
    or_raise (payload_field payload (codes "ts")) cursor_error >>= λ ts_field.
    or_raise (payload_field payload (codes "id")) cursor_error >>= λ id_field.
    or_raise (c.fromisoformat (str_of ts_field)) cursor_error >>= λ ts.
    or_raise (c.parse_uuid (str_of id_field)) cursor_error >>= λ row_id. ok (ts, row_id)

-- What the libraries document: each decoder reads what its encoder wrote.
pub record IsCodec (c : Codec) : Type 0 where
  pub base64 : (t : Text) → c.b64decode (c.b64encode t) ≡ some t
  pub json : (a b : Text) → c.loads (c.dumps (payload_of a b)) ≡ some (dict (payload_of a b))
  pub iso : (t : Timestamp) → c.fromisoformat (c.isoformat t) ≡ some t
  pub uuid : (i : Uuid) → c.parse_uuid (c.uuid_str i) ≡ some i

-- A cursor leads back to the row that it was made of.
pub decode_cursor-encode_cursor :
    (c : Codec) (laws : IsCodec c) (timestamp : Timestamp) (row_id : Uuid)
    → decode_cursor c (encode_cursor c timestamp row_id) ≡ ok (timestamp, row_id)
unfolding encode_cursor decode_cursor
decode_cursor-encode_cursor c laws timestamp row_id =
    let ts = c.isoformat timestamp in
    let i = c.uuid_str row_id in
    rw (laws.base64 (c.dumps (payload_of ts i)))
      (rw (laws.json ts i) (rw (laws.iso timestamp) (rw (laws.uuid row_id) refl)))
