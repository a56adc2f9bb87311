-- ===== src/OrgTree/Replacement.antt =====
-- The forest under `OrgNodesRepo.edit_node` of src/admin_backend/repositories/org_nodes.py: an edit
-- that returns leaves a forest behind.
use cortex_cm.Base.{
  ◌≡◌, refl, sym, ◌∙◌, ap, ◌⊎◌, inl, inr, true, false, Option, none, some, List, ◌∷◌, ◌++◌, map,
  arith, Text, text_eq, text_eq_iff, Bool-cases, Option-cases, ==_iff, ==_refl, ◌==◌, In, any_of_In,
  find-In, find_sound, and-split,
}
use cortex_cm.Result.{ok}
use cortex_cm.Models.Columns.{Uuid}
use cortex_cm.Models.OrgNodes.{OrgNode}
use cortex_cm.Auth.Context.{AuthContext}
use cortex_cm.Database.Tables.{Db}
use cortex_cm.Database.Session.{Session, admits}
use cortex_cm.OrgTree.Ltree.{is_contained, is_descendant-eq-is_contained}
use cortex_cm.OrgTree.Order.{lower, path_label}
use cortex_cm.OrgTree.Paths.{
  has_dot, last_label, parent_prefix, parent_prefix-child, has_dot-child, is_contained-child_parent,
}
use cortex_cm.OrgTree.Codes.{is_plain}
use cortex_cm.OrgTree.Nodes.{child_path}
use cortex_cm.OrgTree.Forest.{IsForest, later-IsForest, last_label-code, label-dotless}
use cortex_cm.OrgTree.Moved.{move-IsForest}
use cortex_cm.OrgTree.Move.{IsReplacement, is_inside}
use cortex_cm.OrgTree.Edit.{Patch, new_path, edit, code_taken_by_other, edit_node}
use cortex_cm.OrgTree.Editing.{FoundParent, edit_node-ok}
use cortex_cm.Permission.Anchors.{is_node}
use cortex_cm.OrgTree.Reshape.{replaced, move, nodes-map, own_tenant, move-IsMove}

module _ (sort_names : List Text → List Text) (s : Session) (t : Uuid) (a : AuthContext)
    (patch : Patch) (target : OrgNode) (db : Db) (path : Option Text)
    (forest : IsForest db.org_nodes db.next_id) (found : In target db.org_nodes)
    (visible : is_node s t target.id target ≡ true) (parent : Option OrgNode)
    (parents : FoundParent sort_names s t a patch target parent db)
    (is_path : path ≡ new_path parent patch.code target.path)
    (free : code_taken_by_other (edit patch path a target) db.org_nodes ≡ false)
    (new_plain : (c : Text) → patch.code ≡ some c → is_plain c ≡ true) where
  abbrev new_row : OrgNode
  new_row = replaced sort_names s t a patch target db path

  replaced-plain : is_plain new_row.code ≡ true
  replaced-plain = elim (Option-cases patch.code) [
    | inl q ↦ rw q (forest.plain target found)
    | inr (c, q) ↦ rw q (new_plain c q)
  ]

  replaced-free :
      (m : OrgNode)
      → In m db.org_nodes
      → m.tenant_id ≡ target.tenant_id
      → lower m.code ≡ lower new_row.code
      → m.id ≡ target.id
  replaced-free m i own same = elim (Bool-cases (m.id == target.id)) [
    | inl e ↦ (==_iff m.id target.id).0 e
    | inr e ↦
        let own_too : (m.tenant_id == target.tenant_id) ≡ true =
          (==_iff m.tenant_id target.tenant_id).1 own in
        let code_too : text_eq (lower m.code) (lower new_row.code) ≡ true =
          (text_eq_iff (lower m.code) (lower new_row.code)).1 same in
        let taken : code_taken_by_other (edit patch path a target) db.org_nodes ≡ true =
          any_of_In _ i (rw (e, own_too, code_too) refl) in
        absurd (cc)
  ]

  target-dotless : has_dot (path_label target.code) ≡ false
  target-dotless = label-dotless db.org_nodes db.next_id forest target found

  -- Where the target is a child, the path of its new code, or the old one, is below the same parent.
  kept_below :
      (p : OrgNode)
      → patch.code ≡ none ⊎ ((c : Text) × (patch.code ≡ some c))
      → parent ≡ none
      → target.path ≡ child_path p.path target.code
      → new_row.path ≡ child_path p.path new_row.code
  kept_below p (inl q) no_move old = rw (is_path, no_move, q) old
  kept_below p (inr (c, q)) no_move old =
      let dotted : has_dot target.path ≡ true =
        ap has_dot old ∙ has_dot-child p.path (path_label target.code) in
      let prefix : parent_prefix target.path ≡ p.path =
        ap parent_prefix old ∙ parent_prefix-child p.path (path_label target.code) target-dotless in
      rw (is_path, no_move, q, dotted, prefix) refl

  kept_root :
      patch.code ≡ none ⊎ ((c : Text) × (patch.code ≡ some c))
      → parent ≡ none
      → target.path ≡ path_label target.code
      → new_row.path ≡ path_label new_row.code
  kept_root (inl q) no_move old = rw (is_path, no_move, q) old
  kept_root (inr (c, q)) no_move old =
      let dotless : has_dot target.path ≡ false = ap has_dot old ∙ target-dotless in
      rw (is_path, no_move, q, dotless) refl

  moved_below :
      (p : OrgNode)
      → patch.code ≡ none ⊎ ((c : Text) × (patch.code ≡ some c))
      → parent ≡ some p
      → new_row.path ≡ child_path p.path new_row.code
  moved_below p c moved =
      let label : last_label target.path ≡ path_label target.code =
        last_label-code db.org_nodes db.next_id forest target found in
      elim c [
        | inl q ↦ rw (is_path, moved, q, label) refl
        | inr (k, q) ↦
            let prefix : parent_prefix (p.path ++ b'.' ∷ path_label target.code) ≡ p.path =
              parent_prefix-child p.path (path_label target.code) target-dotless in
            rw (is_path, moved, q, label, prefix) refl
      ]

  not_inside : (p : OrgNode) → is_contained p.path target.path ≡ false → is_inside target p ≡ false
  not_inside p e = ground arith

  pub replaced-IsReplacement : IsReplacement db.org_nodes target new_row
  replaced-IsReplacement = record {
    id = refl;
    tenant = refl;
    type = refl;
    plain = replaced-plain;
    free = replaced-free;
    placed = elim parents [
      | inl (stays, no_move) ↦ elim (forest.tree target found) [
        | inl root ↦ inl (
          rw stays root,
          kept_root (Option-cases patch.code) no_move (forest.roots target found root),
        )
        | inr (p, ip, up, own, lt, old) ↦
            let out : is_contained p.path target.path ≡ false =
              ap (is_contained p.path) old
              ∙ is_contained-child_parent p.path (path_label target.code) target-dotless in
            inr (
              p,
              ip,
              not_inside p out,
              rw stays up,
              own,
              lt,
              kept_below p (Option-cases patch.code) no_move old,
            )
      ]
      | inr (i, p, moves, named, is_p, seen, above, lt) ↦
          let (own, named_i) =
            and-split (p.tenant_id == t) _
              (and-split (admits s p.tenant_id) _
                (find_sound (is_node s t i) db.org_nodes seen)).1 in
          let out : is_contained p.path target.path ≡ false =
            sym (is_descendant-eq-is_contained p.path target.path) ∙ above in
          inr (
            p,
            find-In (is_node s t i) db.org_nodes seen,
            not_inside p out,
            rw (moves, named) (ap some (sym ((==_iff p.id i).0 named_i))),
            own_tenant sort_names s t a patch target db path forest found visible
                ∙ sym ((==_iff p.tenant_id t).0 own),
            lt,
            moved_below p (Option-cases patch.code) is_p,
          )
    ];
  }

-- An edit that returns leaves a forest behind, if it found one and its code, where it has one,
-- consists of letters, digits and hyphens: ids and codes are keys, every root stands at the label of
-- its code, and every other node hangs below a parent of its tenant and of a higher type, at the
-- parent's path with the label of its own code. So no cycle has come about, and the paths under a node
-- that was moved or that changed its code are those of its new place.
pub edit_node-IsForest :
    (sort_names : List Text → List Text) (s : Session) (t : Uuid) (a : AuthContext) (node_id : Uuid)
    (patch : Patch) (rid : Option Uuid) (db : Db) (row : OrgNode) (db' : Db)
    → IsForest db.org_nodes db.next_id
    → ((c : Text) → patch.code ≡ some c → is_plain c ≡ true)
    → edit_node sort_names s t node_id patch a rid db ≡ ok (row, db')
    → IsForest db'.org_nodes db'.next_id
edit_node-IsForest sort_names s t a node_id patch rid db row db' forest plain h =
    let (target, parent, seen, parents, free, answer, keeps) =
      edit_node-ok sort_names s t a node_id patch rid db row db' h in
    let path = new_path parent patch.code target.path in
    let found : In target db.org_nodes = find-In (is_node s t node_id) db.org_nodes seen in
    let hit : is_node s t node_id target ≡ true =
      find_sound (is_node s t node_id) db.org_nodes seen in
    let visible : is_node s t target.id target ≡ true = ground (arith, ==_refl target.id) in
    let nodes : db'.org_nodes ≡ map (move sort_names s t a patch target db path) db.org_nodes =
      keeps.org_nodes ∙ nodes-map sort_names s t a patch target db path in
    let moved : IsForest (map (move sort_names s t a patch target db path) db.org_nodes)
        db.next_id =
      move-IsForest db.org_nodes db.next_id forest target
        (replaced sort_names s t a patch target db path) found
        (replaced-IsReplacement sort_names s t a patch target db path forest found visible parent
          parents refl free plain)
        (move sort_names s t a patch target db path)
        (move-IsMove sort_names s t a patch target db path forest found visible) in
    rw nodes (later-IsForest moved keeps.next_id)
