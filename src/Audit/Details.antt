-- ===== src/Audit/Details.antt =====
-- The `details` of audit rows: the builders of src/admin_backend/audit/emit.py. A dictionary is its
-- entries in the order of insertion.
use cortex_cm.Base.{Option, none, some, List, [], ◌∷◌, Text, codes}
use cortex_cm.Models.Columns.{Uuid, Json, null, str, id, obj, Fields, end, field}
use Prim.Native.String.{String}

abbrev fields : List (String × Json) → Fields
fields [] = end
fields ((k, v) ∷ d) = field (codes k) v (fields d)

abbrev pub object : List (String × Json) → Json
object d = obj (fields d)

abbrev pub opt_text : Option Text → Json
opt_text none = null
opt_text (some t) = str t

abbrev pub opt_id : Option Uuid → Json
opt_id none = null
opt_id (some u) = id u

abbrev pub build_success_details_for_create : List (String × Json) → Json
build_success_details_for_create snapshot = object (("snapshot", object snapshot) ∷ [])

abbrev pub build_success_details_for_update : List (String × Json) → List (String × Json) → Json
build_success_details_for_update before after =
    object (("before", object before) ∷ ("after", object after) ∷ [])

abbrev pub build_success_details_for_transition : Text → Text → Json
build_success_details_for_transition before after = object (
    ("before", object (("status", str before) ∷ []))
    ∷ ("after", object (("status", str after) ∷ []))
    ∷ [])
