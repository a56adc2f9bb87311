-- ===== src/OrgTree/Ancestry.antt =====
-- Ancestors in the tree of src/admin_backend/repositories/org_nodes.py, their paths, and what a
-- permission at an ancestor (src/admin_backend/auth/permissions.py) comes to further down.
use cortex_cm.Base.{
  ℕ, ◌≡◌, refl, sym, ◌∙◌, ap, inl, inr, ◌<◌, ◌≤◌, true, some, List, [], ◌∷◌, ◌++◌, arith, Text,
  ==_refl, In, IsKey,
}
use mathlib.Core.Path.{subst}
use cortex_cm.Models.OrgNodes.{OrgNode}
use cortex_cm.Models.Permissions.{PermissionScope}
use cortex_cm.Auth.Context.{AuthContext}
use cortex_cm.Database.Tables.{Db}
use cortex_cm.Database.Session.{Session}
use cortex_cm.OrgTree.Ltree.{
  labels, starts_with, is_prefix_trans, is_contained, is_descendant, is_descendant-eq-is_contained,
  is_contained_refl,
}
use cortex_cm.OrgTree.Order.{ordinal, path_label}
use cortex_cm.OrgTree.Nodes.{child_path}
use cortex_cm.OrgTree.Tree.{IsTree}
use cortex_cm.Permission.Scope.{depth}
use cortex_cm.Permission.Resolve.{Request, has_permission}
use cortex_cm.Permission.Cascade.{at_scope, has_permission-down}

-- At or under `a`: by a chain of parents.
pub data IsUnder (ns : List OrgNode) (a : OrgNode) : OrgNode → Type 0 where
  itself : IsUnder ns a a
  below :
      {p n : OrgNode}
      → IsUnder ns a p
      → In p ns
      → In n ns
      → n.parent_id ≡ some p.id
      → IsUnder ns a n

starts_with-append : (p t : Text) (c : ℕ) → starts_with (p ++ c ∷ []) (p ++ c ∷ t) ≡ true
starts_with-append [] t c = ground (arith, ==_refl c)
starts_with-append (x ∷ p) t c = ground (arith, ==_refl x, starts_with-append p t c)

pub child_in_parent : (path code : Text) → is_contained (child_path path code) path ≡ true
unfolding is_descendant
child_in_parent path code =
    sym (is_descendant-eq-is_contained (child_path path code) path)
    ∙ ground (arith, starts_with-append path (path_label code) b'.')

pub is_contained_trans :
    (x y z : Text) → is_contained x y ≡ true → is_contained y z ≡ true → is_contained x z ≡ true
unfolding is_contained
is_contained_trans x y z e f = is_prefix_trans (labels z) (labels y) (labels x) f e

-- In a tree, under ids that are keys, a node at or under another has a path that the other's path
-- contains, stands in the same tenant, and is of a type that is no higher.
pub IsUnder-is_contained :
    (ns : List OrgNode) (a n : OrgNode)
    → IsKey (λ (m : OrgNode). some m.id) ns
    → IsTree ns
    → IsUnder ns a n
    → (is_contained n.path a.path ≡ true)
      × (n.tenant_id ≡ a.tenant_id)
      × (ordinal a.node_type ≤ ordinal n.node_type)
IsUnder-is_contained ns a n key tree itself = (is_contained_refl a.path, refl, omega arith)
IsUnder-is_contained ns a n key tree (below {p} up ip i e) =
    let (c, own, lt) = IsUnder-is_contained ns a p key tree up in
    elim (tree n i) [
      | inl none_above ↦ absurd (cc)
      | inr (q, iq, e', own', lt', path) ↦
          let same : q ≡ p = key q p p.id iq ip (sym e' ∙ e) refl in
          (
            is_contained_trans n.path p.path a.path
                (ap (λ t. is_contained t p.path)
                    (path ∙ ap (λ (m : OrgNode). child_path m.path n.code) same)
                  ∙ child_in_parent p.path n.code)
                c,
            own' ∙ ap (λ (m : OrgNode). m.tenant_id) same ∙ own,
            let step : ordinal p.node_type < ordinal n.node_type =
                  subst (λ (m : OrgNode). ordinal m.node_type < ordinal n.node_type) same lt' in
                omega arith,
          )
    ]

-- In a tree whose ids are keys, who may do something at the path of a node may do it at the path of
-- every node at or under it, at every scope that is no higher.
pub has_permission-IsUnder :
    (s : Session) (db : Db) (auth : AuthContext) (q : Request) (scope : PermissionScope)
    (a n : OrgNode)
    → IsKey (λ (m : OrgNode). some m.id) db.org_nodes
    → IsTree db.org_nodes
    → IsUnder db.org_nodes a n
    → depth q.scope ≤ depth scope
    → (has_permission s db auth q (some a.path)).0 ≡ true
    → (has_permission s db auth (at_scope q scope) (some n.path)).0 ≡ true
has_permission-IsUnder s db auth q scope a n key tree under le h =
    has_permission-down s db auth q (some a.path) scope (some n.path) le
      (IsUnder-is_contained db.org_nodes a n key tree under).0 h
