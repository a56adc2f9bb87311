-- ===== src/Permission/Scope.antt =====
-- The scope cascade of src/admin_backend/auth/permissions.py.
use cortex_cm.Base.{
  ℕ, ◌≡◌, refl, Bool, true, ◌≤◌, List, [], ◌∷◌, map, arith, Text, text_eq, codes, leb, any, select,
  if◌then◌else◌,
}
use cortex_cm.Models.Permissions.{PermissionScope, global, tenant, store}

-- `PermissionScope.value`
abbrev pub value : PermissionScope → Text
value global = codes "GLOBAL"
value tenant = codes "TENANT"
value store = codes "STORE"

abbrev scope_cascade_order : List Text
scope_cascade_order =
    codes "GLOBAL"
    ∷ codes "TENANT"
    ∷ codes "BUSINESS_UNIT"
    ∷ codes "HQ"
    ∷ codes "COUNTRY"
    ∷ codes "REGION"
    ∷ codes "STORE"
    ∷ codes "DEPARTMENT"
    ∷ []

-- `order[: order.index(v) + 1]`
abbrev up_to : Text → List Text → List Text
up_to v [] = []
up_to v (l ∷ ls) = let rest = up_to v ls in if text_eq l v then l ∷ [] else l ∷ rest

unfoldable pub satisfying_scopes : PermissionScope → List Text
satisfying_scopes requested =
    if any (text_eq (value requested)) scope_cascade_order
    then up_to (value requested) scope_cascade_order
    else value requested ∷ []

abbrev permission_scope_enum_values : List Text
permission_scope_enum_values = map value (global ∷ tenant ∷ store ∷ [])

unfoldable pub satisfying_scopes_for_sql : PermissionScope → List Text
unfolding satisfying_scopes
satisfying_scopes_for_sql requested =
    select (λ s. any (text_eq s) permission_scope_enum_values) (satisfying_scopes requested)

-- `p.scope = ANY(:satisfying_scopes)`
unfoldable pub is_satisfied : PermissionScope → PermissionScope → Bool
unfolding satisfying_scopes_for_sql
is_satisfied granted requested = any (text_eq (value granted)) (satisfying_scopes_for_sql requested)

-- How deep a scope lies under the platform, as an order of its own.
abbrev pub depth : PermissionScope → ℕ
depth global = 0
depth tenant = 1
depth store = 2

-- A grant's scope satisfies a check exactly if it is no deeper than the requested scope.
pub is_satisfied-depth : (g r : PermissionScope) → is_satisfied g r ≡ leb (depth g) (depth r)
unfolding is_satisfied
is_satisfied-depth global global = refl
is_satisfied-depth global tenant = refl
is_satisfied-depth global store = refl
is_satisfied-depth tenant global = refl
is_satisfied-depth tenant tenant = refl
is_satisfied-depth tenant store = refl
is_satisfied-depth store global = refl
is_satisfied-depth store tenant = refl
is_satisfied-depth store store = refl

-- A check that a grant satisfies is satisfied at each scope further down.
pub is_satisfied-down :
    (g r s : PermissionScope)
    → depth r ≤ depth s
    → is_satisfied g r ≡ true
    → is_satisfied g s ≡ true
is_satisfied-down g r s le h = ground (arith, is_satisfied-depth g r, is_satisfied-depth g s)
