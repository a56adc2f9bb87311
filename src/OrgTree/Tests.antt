-- ===== src/OrgTree/Tests.antt =====
-- Runs of the operations on the organisation tree.
use cortex_cm.Base.{
  ◌≡◌, ◌<◌, refl, inl, inr, true, false, none, some, List, [], ◌∷◌, arith, Text, codes, find, In,
  here, there, IsKey,
}
use cortex_cm.Result.{ok}
use cortex_cm.Models.OrgNodes.{OrgNode, OrgNodeType}
use cortex_cm.Database.Session.{session_of, admits}
use cortex_cm.OrgTree.Ltree.{is_contained}
use cortex_cm.OrgTree.Order.{ordinal, path_label}
use cortex_cm.OrgTree.Rows.{add_row, new_node, code_taken}
use cortex_cm.OrgTree.Nodes.{add_node, child_path}
use cortex_cm.OrgTree.Tree.{IsPlaced, add_node-ok}
use cortex_cm.OrgTree.Ancestry.{IsUnder, itself, below}
use cortex_cm.Models.TenantUsers
use cortex_cm.Database.Tables.{Db}
use cortex_cm.Permission.Anchors.{is_node}
use cortex_cm.Audit.Keeps.{SameTables}
use cortex_cm.OrgTree.Ltree.{is_contained}
use cortex_cm.OrgTree.Forest.{IsForest, code_of}
use cortex_cm.OrgTree.Codes.{is_plain}
use cortex_cm.OrgTree.Paths.{last_label, parent_prefix, repath}
use cortex_cm.OrgTree.Edit.{Patch, edit_node}
use cortex_cm.OrgTree.Replacement.{edit_node-IsForest}
use cortex_cm.OrgTree.Grow.{begin, editing, reachable-IsForest, edit_node-cycle}
use cortex_cm.Result.{raise}
use cortex_cm.Errors.{client_error, cycle_detected}
use cortex_cm.Permission.Catalogue.{module_eq, resource_eq, action_eq}
use cortex_cm.Permission.Scope.{is_satisfied}
use cortex_cm.Permission.Join.{tenant_join}
use cortex_cm.Permission.Resolve.{is_requested, has_permission, has_permission_tenant}
use cortex_cm.Samples.{acme, member, root_node, east, corner, view_tenant}

abbrev as_is : List Text → List Text
as_is names = names

acme_tree : (n : OrgNode) → In n (root_node ∷ east ∷ corner ∷ []) → IsPlaced acme.org_nodes n
unfolding ordinal path_label
acme_tree n here = inl refl
acme_tree n (there here) = inr (root_node, here, refl, refl, omega arith, refl)
acme_tree n (there (there here)) = inr (east, there here, refl, refl, omega arith, refl)
acme_tree n (there (there (there i))) = elim i [ ]

abbrev west : OrgNode
west =
    new_node 1 root_node (codes "acme.west_end") OrgNodeType.region (codes "West-End")
      (codes "West") member acme

west_is_added :
    add_node as_is
      (session_of member)
      1
      10
      OrgNodeType.region
      (codes "West-End")
      (codes "West")
      member
      none
      acme
    ≡ ok (west, add_row west acme)
unfolding add_node admits ordinal path_label code_taken
west_is_added = refl

add_node-ok_example :
    (p : OrgNode) × (find (is_node (session_of member) 1 10) acme.org_nodes ≡ some p)
    × (ordinal p.node_type < ordinal OrgNodeType.region)
    × (code_taken 1 (codes "West-End") acme.org_nodes ≡ false)
    × (west
        ≡ new_node 1 p
            (child_path p.path (codes "West-End"))
            OrgNodeType.region
            (codes "West-End")
            (codes "West")
            member
            acme)
    × SameTables (add_row west acme) (add_row west acme)
add_node-ok_example =
    add_node-ok as_is (session_of member) member 1 10 OrgNodeType.region (codes "West-End")
      (codes "West") none acme west (add_row west acme) west_is_added

acme-IsKey : IsKey (λ (m : OrgNode). some m.id) acme.org_nodes
acme-IsKey x y k here here e f = refl
acme-IsKey x y k (there here) (there here) e f = refl
acme-IsKey x y k (there (there here)) (there (there here)) e f = refl
acme-IsKey x y k here (there here) e f = absurd (ground arith)
acme-IsKey x y k here (there (there here)) e f = absurd (ground arith)
acme-IsKey x y k (there here) here e f = absurd (ground arith)
acme-IsKey x y k (there here) (there (there here)) e f = absurd (ground arith)
acme-IsKey x y k (there (there here)) here e f = absurd (ground arith)
acme-IsKey x y k (there (there here)) (there here) e f = absurd (ground arith)
acme-IsKey x y k (there (there (there i))) j e f = elim i [ ]
acme-IsKey x y k i (there (there (there j))) e f = elim j [ ]

corner-IsUnder-east : IsUnder acme.org_nodes east corner
corner-IsUnder-east = below itself (there here) (there (there here)) refl

may_view_east :
    (has_permission (session_of member) acme member view_tenant (some east.path)).0 ≡ true
unfolding has_permission has_permission_tenant tenant_join admits is_requested is_satisfied
    is_contained module_eq resource_eq action_eq
may_view_east = refl

acme-codes : IsKey code_of acme.org_nodes
acme-codes x y k here here e f = refl
acme-codes x y k (there here) (there here) e f = refl
acme-codes x y k (there (there here)) (there (there here)) e f = refl
acme-codes x y k here (there here) e f = absurd (ground arith)
acme-codes x y k here (there (there here)) e f = absurd (ground arith)
acme-codes x y k (there here) here e f = absurd (ground arith)
acme-codes x y k (there here) (there (there here)) e f = absurd (ground arith)
acme-codes x y k (there (there here)) here e f = absurd (ground arith)
acme-codes x y k (there (there here)) (there here) e f = absurd (ground arith)
acme-codes x y k (there (there (there i))) j e f = elim i [ ]
acme-codes x y k i (there (there (there j))) e f = elim j [ ]

of_all :
    (P : OrgNode → Type 0)
    → P root_node
    → P east
    → P corner
    → (n : OrgNode) → In n (root_node ∷ east ∷ corner ∷ [])
    → P n
of_all P r e c n here = r
of_all P r e c n (there here) = e
of_all P r e c n (there (there here)) = c
of_all P r e c n (there (there (there i))) = elim i [ ]

acme-IsForest : IsForest acme.org_nodes acme.next_id
unfolding path_label
acme-IsForest = record {
  id_key = acme-IsKey;
  code_key = acme-codes;
  plain = of_all (λ n. is_plain n.code ≡ true) refl refl refl;
  roots =
      of_all (λ n. n.parent_id ≡ none → n.path ≡ path_label n.code) (λ root. refl)
        (λ root. absurd (cc)) (λ root. absurd (cc));
  tree = acme_tree;
  fresh = of_all (λ n. n.id < acme.next_id) (omega arith) (omega arith) (omega arith);
}

abbrev recode : Patch
recode = record { name = none; code = some (codes "North-1"); parent_id = none; reparent = false }

abbrev stamped : OrgNode → OrgNode
stamped n = record n { updated_by_user_id = some 7; updated_by_user_type = some TenantUsers.tenant }

abbrev north : OrgNode
north = record (stamped east) { code = codes "North-1"; path = codes "acme.north_1" }

-- The store under the region moves along.
abbrev recoded : Db
recoded = record acme {
  org_nodes = root_node ∷ north ∷ record (stamped corner) { path = codes "acme.north_1.s_1" } ∷ [];
}

recodes : edit_node as_is (session_of member) 1 11 recode member none acme ≡ ok (north, recoded)
unfolding edit_node admits path_label parent_prefix last_label repath is_contained
recodes = refl

recode-plain : (c : Text) → recode.code ≡ some c → is_plain c ≡ true
recode-plain c e = let same : codes "North-1" ≡ c = ground arith in rw (← same) refl

edit_node-IsForest_example : IsForest recoded.org_nodes recoded.next_id
edit_node-IsForest_example =
    edit_node-IsForest as_is (session_of member) 1 member 11 recode none acme north recoded
      acme-IsForest recode-plain recodes

abbrev swap : Patch
swap = record { name = none; code = none; parent_id = some 12; reparent = true }

edit_node-cycle_example :
    edit_node as_is (session_of member) 1 11 swap member none acme
    ≡ raise (client_error cycle_detected)
edit_node-cycle_example =
    edit_node-cycle as_is (session_of member) 1 member 11 12 swap none acme east corner
      acme-IsForest (unfold admits in refl) (unfold admits in refl) corner-IsUnder-east refl refl

reachable-IsForest_example : IsForest recoded.org_nodes recoded.next_id
reachable-IsForest_example =
    reachable-IsForest as_is acme recoded acme-IsForest
      (editing (session_of member) member 1 11 recode none north recoded begin recode-plain recodes)
