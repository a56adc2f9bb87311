-- ===== src/Stores/Codes.antt =====
-- The codes that `StoresRepo.create` of src/admin_backend/repositories/stores.py can store.
use cortex_cm.Base.{
  ◌≡◌, refl, inl, inr, ◌<◌, ℕ, Bool, true, false, Option, none, some, List, arith, Text, find, any,
  Bool-cases, leb,
}
use cortex_cm.Result.{raise}
use cortex_cm.Errors.{uncaught}
use cortex_cm.Models.Columns.{Uuid, Decimal}
use cortex_cm.Models.OrgNodes.{OrgNode, OrgNodeType}
use cortex_cm.Auth.Context.{AuthContext}
use cortex_cm.Database.Tables.{Db}
use cortex_cm.Database.Session.{Session, admits}
use cortex_cm.OrgTree.Order.{ordinal}
use cortex_cm.OrgTree.Rows.{is_code, is_ltree}
use cortex_cm.OrgTree.Nodes.{child_path, add_node}
use cortex_cm.Permission.Anchors.{is_node}
use cortex_cm.Stores.Create.{NewStore, is_store_type, tenant_exists, has_code, create}

not_store : (p : OrgNodeType) → ordinal p < 5 → is_store_type p ≡ false
unfolding ordinal
not_store OrgNodeType.store lt = absurd (omega (arith, lt))
not_store OrgNodeType.tenant lt = refl
not_store OrgNodeType.business_unit lt = refl
not_store OrgNodeType.hq lt = refl
not_store OrgNodeType.country lt = refl
not_store OrgNodeType.region lt = refl
not_store OrgNodeType.department lt = absurd (omega (arith, lt))

above_store :
    (p : OrgNodeType) → ordinal p < 5 → leb (ordinal OrgNodeType.store) (ordinal p) ≡ false
unfolding ordinal
above_store p lt = ground (arith, lt)

-- A store code that is no code of a node ends in an exception that nothing maps to a client error:
-- where the tenant and the parent are visible, the parent may have stores under it, and no store has
-- the code, the creation raises it.
pub create_bad_code :
    (sort_names : List Text → List Text) (within : ℕ → Decimal → Bool) (s : Session) (t : Uuid)
    (f : NewStore) (a : AuthContext) (rid : Option Uuid) (db : Db) (p : OrgNode)
    → tenant_exists s t db ≡ true
    → find (is_node s t f.parent_org_node_id) db.org_nodes ≡ some p
    → ordinal p.node_type < 5
    → any (has_code s t f.store_code none) db.stores ≡ false
    → is_code f.store_code ≡ false
    → create sort_names within s t f a rid db ≡ raise uncaught
unfolding create add_node
create_bad_code sort_names within s t f a rid db p seen found lt free bad =
    elim (Bool-cases (is_ltree (child_path p.path f.store_code))) [
      | inr q ↦
          rw (seen, found, not_store p.node_type lt, free, found, above_store p.node_type lt, q)
            refl
      | inl q ↦ elim (Bool-cases (admits s t)) [
        | inl r ↦
            rw
              (
                seen,
                found,
                not_store p.node_type lt,
                free,
                found,
                above_store p.node_type lt,
                q,
                r,
                bad,
              )
              refl
        | inr r ↦
            rw
              (seen, found, not_store p.node_type lt, free, found, above_store p.node_type lt, q, r)
              refl
      ]
    ]
