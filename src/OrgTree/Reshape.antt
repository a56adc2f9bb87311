-- ===== src/OrgTree/Reshape.antt =====
-- The forest under `OrgNodesRepo.edit_node` of src/admin_backend/repositories/org_nodes.py.
use cortex_cm.Base.{
  ◌≡◌, refl, sym, ◌∙◌, ap, inl, inr, Bool, true, false, not, ◌&&◌, Option, none, some, List, [],
  ◌∷◌, map, arith, Text, text_eq, text_eq_iff, update_where, Bool-cases, ==_iff, ==_refl, ◌==◌,
  if◌then◌else◌, In, and-split,
}
use cortex_cm.Models.Columns.{Uuid}
use cortex_cm.Models.OrgNodes.{OrgNode}
use cortex_cm.Auth.Context.{AuthContext}
use cortex_cm.Database.Tables.{Db}
use cortex_cm.Database.Session.{Session, admits}
use cortex_cm.OrgTree.Ltree.{is_contained}
use cortex_cm.OrgTree.Paths.{repath, repath-same}
use cortex_cm.OrgTree.Rows.{stamp}
use cortex_cm.OrgTree.Forest.{IsForest}
use cortex_cm.OrgTree.Move.{IsMove, Keeps, is_inside}
use cortex_cm.OrgTree.Edit.{Patch, coalesce, edit, is_below, set_path}
use cortex_cm.OrgTree.Editing.{edited_nodes}
use cortex_cm.Permission.Anchors.{is_node}

update_where-map :
    {A : Type 0} (p : A → Bool) (f : A → A) (xs : List A)
    → update_where p f xs ≡ map (λ x. if p x then f x else x) xs
update_where-map p f [] = refl
update_where-map p f (x ∷ xs) = ap (λ ys. (if p x then f x else x) ∷ ys) (update_where-map p f xs)

map-map : {A : Type 0} (f g : A → A) (xs : List A) → map g (map f xs) ≡ map (λ x. g (f x)) xs
map-map f g [] = refl
map-map f g (x ∷ xs) = ap (λ ys. g (f x) ∷ ys) (map-map f g xs)

-- Whether the subtree is rewritten.
abbrev is_moving : Option Text → Text → Bool
is_moving none path = false
is_moving (some new) path = not (text_eq new path)

is_moving-false :
    (o : Option Text) (path : Text) → is_moving o path ≡ false → coalesce o path ≡ path
is_moving-false none path h = refl
is_moving-false (some new) path h = (text_eq_iff new path).0 (ground arith)

module _ (sort_names : List Text → List Text) (s : Session) (t : Uuid) (a : AuthContext)
    (patch : Patch) (target : OrgNode) (db : Db) where
  -- The target's new row, and what becomes of each row.
  abbrev pub replaced : Option Text → OrgNode
  replaced path = stamp db (edit patch path a) target

  abbrev first : Option Text → OrgNode → OrgNode
  first path n = if is_node s t target.id n then stamp db (edit patch path a) n else n

  abbrev second : Option Text → OrgNode → OrgNode
  second path n =
      if is_moving path target.path && is_below sort_names s t target n
      then set_path sort_names s t (coalesce path target.path) target.path a db n
      else n

  abbrev pub move : Option Text → OrgNode → OrgNode
  move path n = second path (first path n)

  first-map :
      (path : Option Text)
      → update_where (is_node s t target.id) (stamp db (edit patch path a)) db.org_nodes
        ≡ map (first path) db.org_nodes
  first-map path =
      update_where-map (is_node s t target.id) (stamp db (edit patch path a)) db.org_nodes

  -- `move` for both answers to whether the subtree is rewritten.
  abbrev moved : Option Text → Bool → List OrgNode
  moved path b =
      map
        (λ n.
          let m = first path n in
          if b && is_below sort_names s t target m
          then set_path sort_names s t (coalesce path target.path) target.path a db m
          else m)
        db.org_nodes

  pub nodes-map :
      (path : Option Text)
      → edited_nodes sort_names s t a patch path target db ≡ map (move path) db.org_nodes
  nodes-map none = first-map none
  nodes-map (some new) = elim (Bool-cases (text_eq new target.path)) [
    | inl q ↦
        let still : false ≡ is_moving (some new) target.path = rw q refl in
        rw q (first-map (some new) ∙ ap (moved (some new)) still)
    | inr q ↦
        let below = is_below sort_names s t target in
        let rewrite = set_path sort_names s t new target.path a db in
        let moving : true ≡ is_moving (some new) target.path = rw q refl in
        rw q (
          ap (update_where below rewrite) (first-map (some new))
          ∙ update_where-map below rewrite (map (first (some new)) db.org_nodes)
          ∙ map-map (first (some new)) (λ n. if below n then rewrite n else n) db.org_nodes
          ∙ ap (moved (some new)) moving)
  ]

  module _ (path : Option Text) (forest : IsForest db.org_nodes db.next_id)
      (found : In target db.org_nodes) (visible : is_node s t target.id target ≡ true) where
    pub own_tenant : target.tenant_id ≡ t
    own_tenant =
        let (seen, own) = and-split (admits s target.tenant_id) _ visible in
        (==_iff target.tenant_id t).0 (and-split (target.tenant_id == t) _ own).0

    move-target : (n : OrgNode) → In n db.org_nodes → n.id ≡ target.id → move path n ≡ replaced path
    move-target n i e =
        let same : n ≡ target = forest.id_key n target target.id i found (ap some e) refl in
        let first_one : first path n ≡ replaced path = rw (same, visible) refl in
        let not_below : is_below sort_names s t target (replaced path) ≡ false =
          ground (arith, ==_refl target.id) in
        rw (first_one, not_below) (ground arith)

    first-other : (n : OrgNode) → (n.id == target.id) ≡ false → first path n ≡ n
    first-other n e = ground arith

    second-Keeps : (n : OrgNode) → Keeps n (second path n)
    second-Keeps n =
        elim (Bool-cases (is_moving path target.path && is_below sort_names s t target n)) [
          | inl q ↦
              rw q (record { id = refl; tenant = refl; parent = refl; type = refl; code = refl })
          | inr q ↦
              rw q (record { id = refl; tenant = refl; parent = refl; type = refl; code = refl })
        ]

    -- A row other than the target's is below it if it is inside it.
    below-inside :
        (n : OrgNode)
        → (n.id == target.id) ≡ false
        → is_below sort_names s t target n ≡ is_inside target n
    below-inside n e =
        let (seen, own) = and-split (admits s target.tenant_id) _ visible in
        elim (Bool-cases (n.tenant_id == t)) [
          | inl q ↦
              let same : n.tenant_id ≡ target.tenant_id =
                (==_iff n.tenant_id t).0 q ∙ sym own_tenant in
              let visible_too : admits s n.tenant_id ≡ true = rw same seen in
              let own_too : (n.tenant_id == target.tenant_id) ≡ true =
                (==_iff n.tenant_id target.tenant_id).1 same in
              rw (q, visible_too, own_too, e) (and-true (is_contained n.path target.path))
          | inr q ↦
              let foreign : (n.tenant_id == target.tenant_id) ≡ false = rw own_tenant q in
              rw (q, foreign) (and-false (admits s n.tenant_id))
        ]
      where
        and-true : (b : Bool) → (b && true) ≡ b
        and-true true = refl
        and-true false = refl

        and-false : (b : Bool) → (b && false) ≡ false
        and-false true = refl
        and-false false = refl

    second-inside :
        (n : OrgNode)
        → is_below sort_names s t target n ≡ true
        → is_contained n.path target.path ≡ true
        → (second path n).path ≡ repath (coalesce path target.path) target.path n.path
    second-inside n q e = elim (Bool-cases (is_moving path target.path)) [
      | inl r ↦ rw (r, q) refl
      | inr r ↦ rw (r, is_moving-false path target.path r) (sym (repath-same target.path n.path e))
    ]

    second-outside : (n : OrgNode) → is_below sort_names s t target n ≡ false → second path n ≡ n
    second-outside n q = elim (Bool-cases (is_moving path target.path)) [
      | inl r ↦ rw (r, q) refl
      | inr r ↦ rw r refl
    ]

    pub move-IsMove : IsMove db.org_nodes target (replaced path) (move path)
    move-IsMove = record {
      at_target = move-target;
      keeps = λ n i e. rw (first-other n e) (second-Keeps n);
      inside = λ n i e q. rw (first-other n e) (
          second-inside n (below-inside n e ∙ q)
            (and-split (n.tenant_id == target.tenant_id) _ q).1);
      outside = λ n i e q.
          rw (first-other n e)
            (ap (λ (m : OrgNode). m.path) (second-outside n (below-inside n e ∙ q)));
    }
