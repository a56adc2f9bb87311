-- ===== src/OrgTree/Moved.antt =====
-- The forest after a node has got a new row, and everything under it a new path: what
-- `OrgNodesRepo.edit_node` of src/admin_backend/repositories/org_nodes.py comes to.
use cortex_cm.Base.{
  ◌≡◌, refl, sym, ◌∙◌, ap, inl, inr, true, false, none, some, List, map, arith, Bool-cases, ==_iff,
  ==_refl, ◌==◌, In, In-map, and-split,
}
use cortex_cm.Models.Columns.{Uuid}
use cortex_cm.Models.OrgNodes.{OrgNode}
use cortex_cm.OrgTree.Order.{lower, path_label}
use cortex_cm.OrgTree.Paths.{is_contained-dotless}
use cortex_cm.OrgTree.Codes.{is_plain}
use cortex_cm.OrgTree.Forest.{IsForest, id_of, code_of, label-dotless, path_key}
use cortex_cm.OrgTree.Move.{IsReplacement, IsMove, is_inside, same_row, move-id, placed}

module _ (ns : List OrgNode) (next : Uuid) (forest : IsForest ns next) (t t' : OrgNode)
    (it : In t ns) (new : IsReplacement ns t t') (move : OrgNode → OrgNode)
    (moves : IsMove ns t t' move) where
  root_path :
      (n : OrgNode) → In n ns → (move n).parent_id ≡ none → (move n).path ≡ path_label (move n).code
  root_path n i root = elim (Bool-cases (n.id == t.id)) [
    | inl e ↦
        let is_t' : move n ≡ t' = moves.at_target n i ((==_iff n.id t.id).0 e) in
        elim new.placed [
          | inl (none_above, q) ↦ rw is_t' q
          | inr (p, ip, out, up, own, lt, q) ↦
              let none_above : t'.parent_id ≡ none = rw is_t' at root in absurd (cc)
        ]
    | inr e ↦
        let kept = moves.keeps n i e in
        let old : n.path ≡ path_label n.code = forest.roots n i (sym kept.parent ∙ root) in
        let out : is_inside t n ≡ false = elim (Bool-cases (is_inside t n)) [
          | inr f ↦ f
          | inl f ↦
              let (tenant, inside) = and-split (n.tenant_id == t.tenant_id) _ f in
              let same : t.path ≡ path_label n.code =
                is_contained-dotless (path_label n.code) t.path (label-dotless ns next forest n i)
                  (rw old at inside) in
              let is_t : n ≡ t =
                path_key ns next forest n t i it ((==_iff n.tenant_id t.tenant_id).0 tenant)
                  (old ∙ sym same) in
              let clash : (n.id == t.id) ≡ true = rw is_t (==_refl t.id) in absurd (cc)
        ] in
        moves.outside n i e out ∙ old ∙ ap path_label (sym kept.code)
  ]

  -- The new table is a forest again.
  pub move-IsForest : IsForest (map move ns) next
  move-IsForest = record {
    id_key = λ x' y' k i' j' e f.
        let (x, i, ex) = In-map move ns i' in
        let (y, j, ey) = In-map move ns j' in
        let xk : id_of x ≡ some k =
          ap some (sym (move-id ns next forest t t' it new move moves x i)) ∙ (rw ex at e) in
        let yk : id_of y ≡ some k =
          ap some (sym (move-id ns next forest t t' it new move moves y j)) ∙ (rw ey at f) in
        ex ∙ ap move (forest.id_key x y k i j xk yk) ∙ sym ey;
    code_key = λ x' y' k i' j' e f.
        let (x, i, ex) = In-map move ns i' in
        let (y, j, ey) = In-map move ns j' in
        let same : code_of (move x) ≡ code_of (move y) = (rw ex at e) ∙ sym (rw ey at f) in
        ex ∙ ap move (same_code x y i j same) ∙ sym ey;
    plain = λ n' i'. let (n, i, e) = In-map move ns i' in rw e (plain_code n i);
    roots = λ n' i' root. let (n, i, e) = In-map move ns i' in rw e (root_path n i (rw e at root));
    tree = λ n' i'.
        let (n, i, e) = In-map move ns i' in
        rw e (placed ns next forest t t' it new move moves n i);
    fresh = λ n' i'.
        let (n, i, e) = In-map move ns i' in
        rw (e, move-id ns next forest t t' it new move moves n i) (forest.fresh n i);
  }
    where
      plain_code : (n : OrgNode) → In n ns → is_plain (move n).code ≡ true
      plain_code n i = elim (Bool-cases (n.id == t.id)) [
        | inl e ↦
            let is_t' : move n ≡ t' = moves.at_target n i ((==_iff n.id t.id).0 e) in
            rw is_t' new.plain
        | inr e ↦ rw (moves.keeps n i e).code (forest.plain n i)
      ]

      -- The target and another node have different codes.
      target_or_other :
          (x y : OrgNode)
          → In x ns
          → In y ns
          → (x.id == t.id) ≡ true
          → (y.id == t.id) ≡ false
          → ¬ (code_of (move x) ≡ code_of (move y))
      target_or_other x y i j e f same =
          let is_t' : move x ≡ t' = moves.at_target x i ((==_iff x.id t.id).0 e) in
          let kept = moves.keeps y j f in
          let same' : code_of t' ≡ code_of (move y) = rw is_t' at same in
          let tenants : t'.tenant_id ≡ (move y).tenant_id = ground arith in
          let codes : lower t'.code ≡ lower (move y).code = ground arith in
          let hit : y.id ≡ t.id =
            new.free y j (sym kept.tenant ∙ sym tenants ∙ new.tenant)
              (ap lower (sym kept.code) ∙ sym codes) in
          let clash : (y.id == t.id) ≡ true = (==_iff y.id t.id).1 hit in cc

      same_code : (x y : OrgNode) → In x ns → In y ns → code_of (move x) ≡ code_of (move y) → x ≡ y
      same_code x y i j same = elim (Bool-cases (x.id == t.id)) [
        | inl e ↦ elim (Bool-cases (y.id == t.id)) [
          | inl f ↦
              same_row ns next forest t t' it new move moves x i e
              ∙ sym (same_row ns next forest t t' it new move moves y j f)
          | inr f ↦ absurd (target_or_other x y i j e f same)
        ]
        | inr e ↦ elim (Bool-cases (y.id == t.id)) [
          | inl f ↦ absurd (target_or_other y x j i f e (sym same))
          | inr f ↦
              let kx = moves.keeps x i e in
              let ky = moves.keeps y j f in
              let cx : code_of (move x) ≡ code_of x = rw (kx.tenant, kx.code) refl in
              let cy : code_of (move y) ≡ code_of y = rw (ky.tenant, ky.code) refl in
              forest.code_key x y (y.tenant_id, lower y.code) i j (sym cx ∙ same ∙ cy) refl
        ]
      ]
