-- ===== src/OrgTree/Grow.antt =====
-- The forest under `OrgNodesRepo.add_node` and `OrgNodesRepo.set_status` of
-- src/admin_backend/repositories/org_nodes.py, and under any sequence of calls of the repository.
use cortex_cm.Base.{
  ◌≡◌, refl, sym, ◌∙◌, ap, inl, inr, ◌<◌, ◌≤◌, suc, Bool-cases, true, false, Option, none, some,
  List, ◌∷◌, arith, Text, text_eq, text_eq_iff, find, ==_iff, ◌==◌, In, there, In-cons, any_of_In,
  find-In, find_sound, cons-IsKey, and-split, and-join,
}
use mathlib.Core.Path.{subst}
use cortex_cm.Result.{ok, raise}
use cortex_cm.Errors.{client_error, cycle_detected}
use cortex_cm.Models.Columns.{Uuid}
use cortex_cm.Models.OrgNodes.{OrgNode, OrgNodeType}
use cortex_cm.Auth.Context.{AuthContext}
use cortex_cm.Database.Tables.{Db}
use cortex_cm.Database.Session.{Session, admits}
use cortex_cm.OrgTree.Order.{ordinal, lower, path_label}
use cortex_cm.OrgTree.Codes.{is_plain}
use cortex_cm.OrgTree.Rows.{new_node, code_taken}
use cortex_cm.OrgTree.Nodes.{child_path, add_node}
use cortex_cm.OrgTree.Tree.{IsPlaced, add_node-ok}
use cortex_cm.OrgTree.Forest.{IsForest, later-IsForest, id_of, code_of}
use cortex_cm.OrgTree.Ltree.{is_descendant, is_descendant-eq-is_contained}
use cortex_cm.OrgTree.Ancestry.{IsUnder, IsUnder-is_contained}
use cortex_cm.OrgTree.Edit.{Patch, edit_node}
use cortex_cm.OrgTree.Replacement.{edit_node-IsForest}
use cortex_cm.Permission.Anchors.{is_node}

-- A place stays one when a node is added.
IsPlaced-cons : (m n : OrgNode) (ns : List OrgNode) → IsPlaced ns n → IsPlaced (m ∷ ns) n
IsPlaced-cons m n ns (inl e) = inl e
IsPlaced-cons m n ns (inr (p, i, e, f, lt, q)) = inr (p, there i, e, f, lt, q)

-- A node with a new id and a new code goes below a node of the forest.
cons-IsForest :
    (n p : OrgNode) (ns : List OrgNode) (next : Uuid)
    → IsForest ns next
    → In p ns
    → n.id ≡ next
    → n.parent_id ≡ some p.id
    → n.tenant_id ≡ p.tenant_id
    → ordinal p.node_type < ordinal n.node_type
    → n.path ≡ child_path p.path n.code
    → is_plain n.code ≡ true
    → code_taken n.tenant_id n.code ns ≡ false
    → IsForest (n ∷ ns) (suc next)
unfolding code_taken
cons-IsForest n p ns next forest ip new up own lt path plain free = record {
  id_key =
      cons-IsKey id_of n ns
        (λ m k i e f.
          let below = forest.fresh m i in let same : id_of n ≡ id_of m = e ∙ sym f in ground arith)
        forest.id_key;
  code_key =
      cons-IsKey code_of n ns
        (λ m k i e f.
          let same : code_of m ≡ code_of n = f ∙ sym e in
          let tenants : (m.tenant_id == n.tenant_id) ≡ true =
            (==_iff m.tenant_id n.tenant_id).1 (ground arith) in
          let codes : text_eq (lower m.code) (lower n.code) ≡ true =
            (text_eq_iff (lower m.code) (lower n.code)).1 (ground arith) in
          let taken : code_taken n.tenant_id n.code ns ≡ true =
            any_of_In _ i (and-join tenants codes) in
          cc)
        forest.code_key;
  plain = λ m i. In-cons (is_plain m.code ≡ true) n ns (λ e. rw e plain) (forest.plain m) i;
  roots = λ m i root.
      In-cons (m.path ≡ path_label m.code) n ns
        (λ e.
          let none_above : n.parent_id ≡ none = ap (λ (x : OrgNode). x.parent_id) (sym e) ∙ root in
          absurd (cc))
        (λ j. forest.roots m j root) i;
  tree = λ m i.
      In-cons (IsPlaced (n ∷ ns) m) n ns
        (λ e. subst (IsPlaced (n ∷ ns)) (sym e) (inr (p, there ip, up, own, lt, path)))
        (λ j. IsPlaced-cons n m ns (forest.tree m j)) i;
  fresh = λ m i.
      In-cons (m.id < suc next) n ns (λ e. rw (e, new) (omega arith))
        (λ j. let below = forest.fresh m j in omega arith) i;
}

-- An addition that returns leaves a forest behind, if it found one and the new code consists of
-- letters, digits and hyphens.
pub add_node-IsForest :
    (sort_names : List Text → List Text) (s : Session) (a : AuthContext) (t parent_id : Uuid)
    (type : OrgNodeType) (code name : Text) (rid : Option Uuid) (db : Db) (row : OrgNode) (db' : Db)
    → IsForest db.org_nodes db.next_id
    → is_plain code ≡ true
    → add_node sort_names s t parent_id type code name a rid db ≡ ok (row, db')
    → IsForest db'.org_nodes db'.next_id
add_node-IsForest sort_names s a t parent_id type code name rid db row db' forest plain h =
    let (p, found, lt, free, is_row, keeps) =
      add_node-ok sort_names s a t parent_id type code name rid db row db' h in
    let (own, named) =
      and-split (p.tenant_id == t) _
        (and-split (admits s p.tenant_id) _
          (find_sound (is_node s t parent_id) db.org_nodes found)).1 in
    let grown : IsForest (row ∷ db.org_nodes) (suc db.next_id) = rw is_row (
      cons-IsForest (new_node t p (child_path p.path code) type code name a db) p db.org_nodes
        db.next_id forest (find-In (is_node s t parent_id) db.org_nodes found) refl refl
        (sym ((==_iff p.tenant_id t).0 own)) lt refl plain free) in
    rw keeps.org_nodes (later-IsForest grown keeps.next_id)

-- Committed calls of the repository, one after the other, by any callers, and what other parts of the
-- program do to other tables.
module _ (sort_names : List Text → List Text) where
  pub data Grows (start : Db) : Db → Type 0 where
    begin : Grows start start
    elsewhere :
        {db : Db} (db' : Db)
        → Grows start db
        → db'.org_nodes ≡ db.org_nodes
        → db.next_id ≤ db'.next_id
        → Grows start db'
    adding :
        {db : Db} (s : Session) (a : AuthContext) (t parent_id : Uuid) (type : OrgNodeType)
        (code name : Text) (rid : Option Uuid) (row : OrgNode) (db' : Db)
        → Grows start db
        → is_plain code ≡ true
        → add_node sort_names s t parent_id type code name a rid db ≡ ok (row, db')
        → Grows start db'
    editing :
        {db : Db} (s : Session) (a : AuthContext) (t node_id : Uuid) (patch : Patch)
        (rid : Option Uuid) (row : OrgNode) (db' : Db)
        → Grows start db
        → ((c : Text) → patch.code ≡ some c → is_plain c ≡ true)
        → edit_node sort_names s t node_id patch a rid db ≡ ok (row, db')
        → Grows start db'

  -- Every table of nodes that additions and edits lead to, by any callers in any order, is a forest,
  -- if the first one was and all codes consist of letters, digits and hyphens.
  pub reachable-IsForest :
      (start db : Db)
      → IsForest start.org_nodes start.next_id
      → Grows start db
      → IsForest db.org_nodes db.next_id
  reachable-IsForest start db forest begin = forest
  reachable-IsForest start db forest (elsewhere {db = before} db' g e le) =
      rw e (later-IsForest (reachable-IsForest start before forest g) le)
  reachable-IsForest start db forest
        (adding {db = before} s a t parent_id type code name rid row db' g plain h) =
      add_node-IsForest sort_names s a t parent_id type code name rid before row db
        (reachable-IsForest start before forest g) plain h
  reachable-IsForest start db forest
        (editing {db = before} s a t node_id patch rid row db' g plain h) =
      edit_node-IsForest sort_names s t a node_id patch rid before row db
        (reachable-IsForest start before forest g) plain h

-- A node cannot be hung below itself or below a node under it. In a forest, an edit that names a
-- visible node at or under the target as the new parent is refused with `CYCLE_DETECTED`, whatever
-- else it asks for.
pub edit_node-cycle :
    (sort_names : List Text → List Text) (s : Session) (t : Uuid) (a : AuthContext)
    (node_id parent_id : Uuid) (patch : Patch) (rid : Option Uuid) (db : Db) (target p : OrgNode)
    → IsForest db.org_nodes db.next_id
    → find (is_node s t node_id) db.org_nodes ≡ some target
    → find (is_node s t parent_id) db.org_nodes ≡ some p
    → IsUnder db.org_nodes target p
    → patch.reparent ≡ true
    → patch.parent_id ≡ some parent_id
    → edit_node sort_names s t node_id patch a rid db ≡ raise (client_error cycle_detected)
unfolding edit_node
edit_node-cycle sort_names s t a node_id parent_id patch rid db target p forest found seen under
      moves named =
    let (inside, own, lower) =
      IsUnder-is_contained db.org_nodes target p forest.id_key forest.tree under in
    let below : is_descendant p.path target.path ≡ true =
      is_descendant-eq-is_contained p.path target.path ∙ inside in
    elim (Bool-cases (parent_id == target.id)) [
      | inl e ↦ rw (found, moves, named, e) refl
      | inr e ↦ rw (found, moves, named, e, seen, below) refl
    ]
