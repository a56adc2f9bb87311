-- ===== src/OrgTree/Move.antt =====
-- A node of the forest gets a new row and, with it, everything under it a new path: what
-- `OrgNodesRepo.edit_node` of src/admin_backend/repositories/org_nodes.py does to the shape of the
-- tree, apart from the statements that do it.
use cortex_cm.Base.{
  ◌≡◌, refl, sym, ◌∙◌, ap, ◌⊎◌, inl, inr, ◌<◌, Bool, true, false, ◌&&◌, none, some, List, map,
  Bool-cases, ==_iff, ==_refl, ◌==◌, In, map-In, and-split, and-join,
}
use mathlib.Core.Path.{subst}
use cortex_cm.Models.Columns.{Uuid}
use cortex_cm.Models.OrgNodes.{OrgNode}
use cortex_cm.OrgTree.Ltree.{is_contained, is_contained_refl}
use cortex_cm.OrgTree.Ancestry.{child_in_parent, is_contained_trans}
use cortex_cm.OrgTree.Order.{lower, path_label, ordinal}
use cortex_cm.OrgTree.Paths.{repath, is_contained-child, repath-child, repath-old}
use cortex_cm.OrgTree.Codes.{is_plain}
use cortex_cm.OrgTree.Nodes.{child_path}
use cortex_cm.OrgTree.Tree.{IsPlaced}
use cortex_cm.OrgTree.Forest.{IsForest, label-dotless, path_key}

-- What stays of a node under the moved one.
pub record Keeps (n n' : OrgNode) : Type 0 where
  pub id : n'.id ≡ n.id
  pub tenant : n'.tenant_id ≡ n.tenant_id
  pub parent : n'.parent_id ≡ n.parent_id
  pub type : ordinal n'.node_type ≡ ordinal n.node_type
  pub code : n'.code ≡ n.code

-- In the moved node's tenant, at its path or under it.
abbrev pub is_inside : OrgNode → OrgNode → Bool
is_inside t n = (n.tenant_id == t.tenant_id) && is_contained n.path t.path

-- `t'` may stand in for `t`: it has the same id, tenant and type, a code that no other node of the
-- tenant has, and hangs below a node that is not inside `t`, or is a root as `t` was.
pub record IsReplacement (ns : List OrgNode) (t t' : OrgNode) : Type 0 where
  pub id : t'.id ≡ t.id
  pub tenant : t'.tenant_id ≡ t.tenant_id
  pub type : ordinal t'.node_type ≡ ordinal t.node_type
  pub plain : is_plain t'.code ≡ true
  pub free :
      (m : OrgNode)
      → In m ns
      → m.tenant_id ≡ t.tenant_id
      → lower m.code ≡ lower t'.code
      → m.id ≡ t.id
  pub placed :
      ((t'.parent_id ≡ none) × (t'.path ≡ path_label t'.code))
      ⊎ ((p : OrgNode) × In p ns
          × (is_inside t p ≡ false)
          × (t'.parent_id ≡ some p.id)
          × (t.tenant_id ≡ p.tenant_id)
          × (ordinal p.node_type < ordinal t.node_type)
          × (t'.path ≡ child_path p.path t'.code))

-- `move` puts `t'` for `t` and rewrites the paths of what is inside `t`.
pub record IsMove (ns : List OrgNode) (t t' : OrgNode) (move : OrgNode → OrgNode) : Type 0 where
  pub at_target : (n : OrgNode) → In n ns → n.id ≡ t.id → move n ≡ t'
  pub keeps : (n : OrgNode) → In n ns → (n.id == t.id) ≡ false → Keeps n (move n)
  pub inside :
      (n : OrgNode)
      → In n ns
      → (n.id == t.id) ≡ false
      → is_inside t n ≡ true
      → (move n).path ≡ repath t'.path t.path n.path
  pub outside :
      (n : OrgNode)
      → In n ns
      → (n.id == t.id) ≡ false
      → is_inside t n ≡ false
      → (move n).path ≡ n.path

module _ (ns : List OrgNode) (next : Uuid) (forest : IsForest ns next) (t t' : OrgNode)
    (it : In t ns) (new : IsReplacement ns t t') (move : OrgNode → OrgNode)
    (moves : IsMove ns t t' move) where
  pub same_row : (n : OrgNode) → In n ns → (n.id == t.id) ≡ true → n ≡ t
  same_row n i e = forest.id_key n t t.id i it (ap some ((==_iff n.id t.id).0 e)) refl

  pub move-id : (n : OrgNode) → In n ns → (move n).id ≡ n.id
  move-id n i = elim (Bool-cases (n.id == t.id)) [
    | inl e ↦
        let same : n.id ≡ t.id = (==_iff n.id t.id).0 e in
        ap (λ (m : OrgNode). m.id) (moves.at_target n i same) ∙ new.id ∙ sym same
    | inr e ↦ (moves.keeps n i e).id
  ]

  pub move-tenant : (n : OrgNode) → In n ns → (move n).tenant_id ≡ n.tenant_id
  move-tenant n i = elim (Bool-cases (n.id == t.id)) [
    | inl e ↦
        ap (λ (m : OrgNode). m.tenant_id) (moves.at_target n i ((==_iff n.id t.id).0 e))
        ∙ new.tenant
        ∙ ap (λ (m : OrgNode). m.tenant_id) (sym (same_row n i e))
    | inr e ↦ (moves.keeps n i e).tenant
  ]

  move-type : (n : OrgNode) → In n ns → ordinal (move n).node_type ≡ ordinal n.node_type
  move-type n i = elim (Bool-cases (n.id == t.id)) [
    | inl e ↦
        ap (λ (m : OrgNode). ordinal m.node_type) (moves.at_target n i ((==_iff n.id t.id).0 e))
        ∙ new.type
        ∙ ap (λ (m : OrgNode). ordinal m.node_type) (sym (same_row n i e))
    | inr e ↦ (moves.keeps n i e).type
  ]

  -- The target is inside itself.
  inside_target : (n : OrgNode) → In n ns → (n.id == t.id) ≡ true → is_inside t n ≡ true
  inside_target n i e =
      rw (same_row n i e) (and-join (==_refl t.tenant_id) (is_contained_refl t.path))

  -- What is inside the target, the target too, has its path rewritten.
  inside-path :
      (n : OrgNode) → In n ns → is_inside t n ≡ true → (move n).path ≡ repath t'.path t.path n.path
  inside-path n i q = elim (Bool-cases (n.id == t.id)) [
    | inl e ↦
        ap (λ (m : OrgNode). m.path) (moves.at_target n i ((==_iff n.id t.id).0 e))
        ∙ sym (repath-old t'.path t.path)
        ∙ ap (λ (m : OrgNode). repath t'.path t.path m.path) (sym (same_row n i e))
    | inr e ↦ moves.inside n i e q
  ]

  outside-path : (n : OrgNode) → In n ns → is_inside t n ≡ false → (move n).path ≡ n.path
  outside-path n i q = elim (Bool-cases (n.id == t.id)) [
    | inl e ↦ let clash = inside_target n i e in absurd (cc)
    | inr e ↦ moves.outside n i e q
  ]

  -- A child is inside if its parent is, and if it is and is not the target, its parent is.
  child_inside :
      (p n : OrgNode)
      → In p ns
      → In n ns
      → (n.id == t.id) ≡ false
      → n.tenant_id ≡ p.tenant_id
      → n.path ≡ child_path p.path n.code
      → is_inside t n ≡ is_inside t p
  child_inside p n ip i other own q = elim (Bool-cases (is_inside t p)) [
    | inl e ↦
        let (tenant, inside) = and-split (p.tenant_id == t.tenant_id) _ e in
        let same_tenant : (n.tenant_id == t.tenant_id) ≡ true = rw own tenant in
        let within : is_contained n.path t.path ≡ true = rw q (
          is_contained_trans (child_path p.path n.code) p.path t.path
            (child_in_parent p.path n.code) inside) in
        and-join same_tenant within ∙ sym e
    | inr e ↦ elim (Bool-cases (is_inside t n)) [
      | inr f ↦ f ∙ sym e
      | inl f ↦
          let (tenant, inside) = and-split (n.tenant_id == t.tenant_id) _ f in
          elim (is_contained-child p.path (path_label n.code) t.path
            (label-dotless ns next forest n i) (rw q at inside)) [
              | inl up ↦
                  let clash : is_inside t p ≡ true = and-join (rw (← own) tenant) up in absurd (cc)
              | inr same ↦
                  let is_t : n ≡ t =
                    path_key ns next forest n t i it ((==_iff n.tenant_id t.tenant_id).0 tenant)
                      (q ∙ sym same) in
                  let clash : (n.id == t.id) ≡ true = rw is_t (==_refl t.id) in absurd (cc)
            ]
    ]
  ]

  -- A child keeps its place below its parent.
  child_placed :
      (p n : OrgNode)
      → In p ns
      → In n ns
      → (n.id == t.id) ≡ false
      → n.tenant_id ≡ p.tenant_id
      → n.path ≡ child_path p.path n.code
      → (move n).path ≡ child_path (move p).path n.code
  child_placed p n ip i other own q = elim (Bool-cases (is_inside t p)) [
    | inl e ↦
        let inside = child_inside p n ip i other own q ∙ e in
        inside-path n i inside
        ∙ ap (repath t'.path t.path) q
        ∙ repath-child t'.path t.path p.path (path_label n.code) (label-dotless ns next forest n i)
            (and-split (p.tenant_id == t.tenant_id) _ e).1
        ∙ ap (λ path. child_path path n.code) (sym (inside-path p ip e))
    | inr e ↦
        let outside = child_inside p n ip i other own q ∙ e in
        outside-path n i outside
        ∙ q
        ∙ ap (λ path. child_path path n.code) (sym (outside-path p ip e))
  ]

  -- Every node has its place in the new table.
  pub placed : (n : OrgNode) → In n ns → IsPlaced (map move ns) (move n)
  placed n i = elim (Bool-cases (n.id == t.id)) [
    | inl e ↦
        let is_t' : move n ≡ t' = moves.at_target n i ((==_iff n.id t.id).0 e) in
        subst (IsPlaced (map move ns)) (sym is_t') target_placed
    | inr e ↦
        let kept = moves.keeps n i e in
        elim (forest.tree n i) [
          | inl none_above ↦ inl (kept.parent ∙ none_above)
          | inr (p, ip, up, own, lt, q) ↦ inr (
            move p,
            map-In move ip,
            kept.parent ∙ up ∙ ap some (sym (move-id p ip)),
            kept.tenant ∙ own ∙ sym (move-tenant p ip),
            rw (kept.type, move-type p ip) lt,
            child_placed p n ip i e own q ∙ ap (child_path (move p).path) (sym kept.code),
          )
        ]
  ]
    where
      target_placed : IsPlaced (map move ns) t'
      target_placed = elim new.placed [
        | inl (root, q) ↦ inl root
        | inr (p, ip, out, up, own, lt, q) ↦ inr (
          move p,
          map-In move ip,
          up ∙ ap some (sym (move-id p ip)),
          new.tenant ∙ own ∙ sym (move-tenant p ip),
          rw (new.type, move-type p ip) lt,
          q ∙ ap (λ path. child_path path t'.code) (sym (outside-path p ip out)),
        )
      ]
