-- ===== src/OrgTree/Forest.antt =====
-- The table of nodes as a forest of tenants: what src/admin_backend/repositories/org_nodes.py keeps
-- true of ids, codes, parents and paths.
use cortex_cm.Base.{
  ◌≡◌, refl, sym, ◌∙◌, ap, inl, inr, ◌<◌, ◌≤◌, arith, true, false, Option, none, some, List, Text,
  In, IsKey,
}
use cortex_cm.Models.Columns.{Uuid}
use cortex_cm.Models.OrgNodes.{OrgNode}
use cortex_cm.OrgTree.Order.{lower, path_label}
use cortex_cm.OrgTree.Paths.{has_dot, last_label, last_label-child, last_label-dotless}
use cortex_cm.OrgTree.Codes.{is_plain, path_label-dotless, path_label-inj}
use cortex_cm.OrgTree.Tree.{IsTree}

abbrev pub id_of : OrgNode → Option Uuid
id_of n = some n.id

-- The columns of `uq_org_nodes_tenant_code_lower`.
abbrev pub code_of : OrgNode → Option (Uuid × Text)
code_of n = some (n.tenant_id, lower n.code)

-- Ids are keys, and the next one is new. Codes are a key in their tenant, whatever the case of their
-- letters, and consist of letters, digits and hyphens. A root stands at the label of its code; every
-- other node hangs below its parent.
pub record IsForest (ns : List OrgNode) (next : Uuid) : Type 0 where
  pub id_key : IsKey id_of ns
  pub code_key : IsKey code_of ns
  pub plain : (n : OrgNode) → In n ns → is_plain n.code ≡ true
  pub roots : (n : OrgNode) → In n ns → n.parent_id ≡ none → n.path ≡ path_label n.code
  pub tree : IsTree ns
  pub fresh : (n : OrgNode) → In n ns → n.id < next

pub later-IsForest :
    {ns : List OrgNode} {next next' : Uuid} → IsForest ns next → next ≤ next' → IsForest ns next'
later-IsForest {next = next} {next' = next'} forest le = record {
  id_key = forest.id_key;
  code_key = forest.code_key;
  plain = forest.plain;
  roots = forest.roots;
  tree = forest.tree;
  fresh = λ n i. let lt = forest.fresh n i in omega arith;
}

module _ (ns : List OrgNode) (next : Uuid) (forest : IsForest ns next) where
  pub label-dotless : (n : OrgNode) → In n ns → has_dot (path_label n.code) ≡ false
  label-dotless n i = path_label-dotless n.code (forest.plain n i)

  pub last_label-code : (n : OrgNode) → In n ns → last_label n.path ≡ path_label n.code
  last_label-code n i = elim (forest.tree n i) [
    | inl e ↦
        ap last_label (forest.roots n i e)
        ∙ last_label-dotless (path_label n.code) (label-dotless n i)
    | inr (p, ip, e, own, lt, q) ↦
        ap last_label q ∙ last_label-child p.path (path_label n.code) (label-dotless n i)
  ]

  -- No two nodes of a tenant have the same path.
  pub path_key :
      (x y : OrgNode) → In x ns → In y ns → x.tenant_id ≡ y.tenant_id → x.path ≡ y.path → x ≡ y
  path_key x y ix iy own e =
      let labels : path_label x.code ≡ path_label y.code =
        sym (last_label-code x ix) ∙ ap last_label e ∙ last_label-code y iy in
      let lowers : lower x.code ≡ lower y.code =
        path_label-inj x.code y.code (forest.plain x ix) (forest.plain y iy) labels in
      forest.code_key x y (y.tenant_id, lower y.code) ix iy (rw (own, lowers) refl) refl
