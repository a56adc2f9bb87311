-- ===== src/OrgTree/Editing.antt =====
-- What `OrgNodesRepo.edit_node` of src/admin_backend/repositories/org_nodes.py has checked and done
-- if it returns.
use cortex_cm.Base.{
  ◌≡◌, sym, ◌∙◌, ap, ◌⊎◌, inl, inr, ◌<◌, Bool, true, false, not, Option, none, some, List, [], ◌∷◌,
  arith, Text, text_eq, leb, find, any, update_where, Bool-cases, Option-cases, ◌==◌, if◌then◌else◌,
}
use mathlib.Core.Path.{subst}
use cortex_cm.Result.{ok}
use cortex_cm.Errors.{
  client_error, uncaught, org_node_not_found, cycle_detected, duplicate_org_node_code,
  parent_node_not_found,
}
use cortex_cm.Models.Columns.{Uuid}
use cortex_cm.Models.OrgNodes.{OrgNode}
use cortex_cm.Auth.Context.{AuthContext}
use cortex_cm.Database.Tables.{Db}
use cortex_cm.Database.Session.{Session}
use cortex_cm.Database.Txn.{
  Txn, pure, throw, gets, or_throw, modify, throw_if, ◌>>=◌, ◌>>◌, >>=-eq-ok, pure-eq-ok,
  after-throw_if, or_throw-eq-ok,
}
use cortex_cm.Audit.Keeps.{SameTables, SameTables-refl, emit_audit_event-SameTables}
use cortex_cm.OrgTree.Ltree.{is_descendant}
use cortex_cm.OrgTree.Order.{ordinal, check_cascade_order}
use cortex_cm.OrgTree.Rows.{stamp, update_node, refetch_by_id}
use cortex_cm.OrgTree.Edit.{
  Patch, new_path, edit, code_taken_by_other, check_new_parent, find_new_parent, update_target,
  is_below, set_path, rewrite_subtree, update_subtree, is_too_short, emit_diff, emit_edited,
  is_valid_row, is_ltree_or_null, respond_edited, write_edit, edit_node, Diff, diff_parent,
  diff_parent_to,
}
use cortex_cm.Permission.Anchors.{is_node}

module _ (sort_names : List Text → List Text) (s : Session) (t : Uuid) (a : AuthContext) where
  -- The parent that an edit has found: the old one is kept, or the new one is visible in the tenant,
  -- is not the target and not under it, and is of a higher type.
  abbrev pub FoundParent : Patch → OrgNode → Option OrgNode → Db → Type 0
  FoundParent patch target parent db =
      ((patch.reparent ≡ false) × (parent ≡ none))
      ⊎ ((i : Uuid) × (p : OrgNode) × (patch.reparent ≡ true)
          × (patch.parent_id ≡ some i)
          × (parent ≡ some p)
          × (find (is_node s t i) db.org_nodes ≡ some p)
          × (is_descendant p.path target.path ≡ false)
          × (ordinal p.node_type < ordinal target.node_type))

  check_new_parent-ok :
      (target : OrgNode) (i : Uuid) (db : Db) {parent : Option OrgNode} {db' : Db}
      → check_new_parent sort_names s t target (some i) db ≡ ok (parent, db')
      → (db' ≡ db)
        × ((p : OrgNode) × (parent ≡ some p)
            × (find (is_node s t i) db.org_nodes ≡ some p)
            × (is_descendant p.path target.path ≡ false)
            × (ordinal p.node_type < ordinal target.node_type))
  check_new_parent-ok target i db {parent} {db'} h =
      let (other, h1) = after-throw_if (i == target.id) _ _ db h in
      elim (Option-cases (find (is_node s t i) db.org_nodes)) [
        | inl e ↦
            let failed : throw {A = Option OrgNode} (client_error parent_node_not_found) db
                ≡ ok (parent, db') =
              rw e at h1 in
            absurd (cc)
        | inr (p, e) ↦
            let last : Txn (Option OrgNode) =
              check_cascade_order p.node_type target.node_type >> pure (some p) in
            let h2 : (throw_if (is_descendant p.path target.path) (client_error cycle_detected)
                    >> last)
                  db
                ≡ ok (parent, db') =
              rw e at h1 in
            let (above, h3) = after-throw_if (is_descendant p.path target.path) _ last db h2 in
            let (lower, h4) =
              after-throw_if (leb (ordinal target.node_type) (ordinal p.node_type)) _
                (pure (some p)) db h3 in
            let (is_p, same) = pure-eq-ok h4 in (same, (p, is_p, e, above, ground arith))
      ]

  find_new_parent-ok :
      (patch : Patch) (target : OrgNode) (db : Db) {parent : Option OrgNode} {db' : Db}
      → find_new_parent sort_names s t patch.reparent target patch.parent_id db ≡ ok (parent, db')
      → (db' ≡ db) × FoundParent patch target parent db
  find_new_parent-ok patch target db {parent} {db'} h = elim (Bool-cases patch.reparent) [
    | inr q ↦ let (none_, same) = pure-eq-ok (rw q at h) in (same, inl (q, none_))
    | inl q ↦ elim (Option-cases patch.parent_id) [
      | inl r ↦
          let failed : throw {A = Option OrgNode} uncaught db ≡ ok (parent, db') = rw (q, r) at h in
          absurd (cc)
      | inr (i, r) ↦
          let (same, (p, is_p, found, above, lt)) =
            check_new_parent-ok target i db (rw (q, r) at h) in
          (same, inr (i, p, q, r, is_p, found, above, lt))
    ]
  ]

  -- The table after both UPDATEs.
  abbrev pub edited_nodes : Patch → Option Text → OrgNode → Db → List OrgNode
  edited_nodes patch path target db =
      let ns = update_where (is_node s t target.id) (stamp db (edit patch path a)) db.org_nodes in
      elim path [
        | none ↦ ns
        | some new ↦
            if text_eq new target.path
            then ns
            else update_where (is_below sort_names s t target)
                (set_path sort_names s t new target.path a db) ns
      ]

  abbrev updated_target : Patch → Option Text → OrgNode → Db → Db
  updated_target patch path target db = record db {
    org_nodes = update_where (is_node s t target.id) (stamp db (edit patch path a)) db.org_nodes;
  }

  update_target-ok :
      (patch : Patch) (path : Option Text) (target : OrgNode) (db : Db) {u : Unit {0}} {db' : Db}
      → update_target sort_names s t patch path a target db ≡ ok (u, db')
      → (code_taken_by_other (edit patch path a target) db.org_nodes ≡ false)
        × (db' ≡ updated_target patch path target db)
  update_target-ok patch path target db {u} {db'} h =
      let new = edit patch path a target in
      let write : Txn (Unit {0}) = update_node s t target.id (λ db. edit patch path a) in
      let index : Txn (Unit {0}) = gets (λ db. code_taken_by_other new db.org_nodes) >>= λ taken.
      throw_if taken (client_error duplicate_org_node_code) >> write in
      let (is_path, h1) =
        after-throw_if (not (is_ltree_or_null path)) uncaught
          (throw_if (not (is_valid_row new)) uncaught >> index) db h in
      let (valid, h2) = after-throw_if (not (is_valid_row new)) uncaught index db h1 in
      let (free, h3) =
        after-throw_if (code_taken_by_other new db.org_nodes) (client_error duplicate_org_node_code)
          write db h2 in
      (free, sym (ground arith))

  abbrev pub edited : Patch → Option Text → OrgNode → Db → Db
  edited patch path target db = record db { org_nodes = edited_nodes patch path target db }

  rewrite_subtree-ok :
      (patch : Patch) (path : Option Text) (target : OrgNode) (db : Db) {u : Unit {0}} {db' : Db}
      → rewrite_subtree sort_names s t path a target (updated_target patch path target db)
        ≡ ok (u, db')
      → db' ≡ edited patch path target db
  rewrite_subtree-ok patch none target db h = (pure-eq-ok h).1
  rewrite_subtree-ok patch (some new) target db {u} {db'} h =
      let db1 = updated_target patch (some new) target db in
      elim (Bool-cases (text_eq new target.path)) [
        | inl q ↦ let h1 : pure tt db1 ≡ ok (u, db') = rw q at h in rw q ((pure-eq-ok h1).1)
        | inr q ↦
            let h1 : update_subtree sort_names s t new a target db1 ≡ ok (u, db') = rw q at h in
            let short = any (is_too_short sort_names s t target) db1.org_nodes in
            let write : Txn (Unit {0}) = modify (λ db. record db {
              org_nodes =
                  update_where (is_below sort_names s t target)
                    (set_path sort_names s t new target.path a db) db.org_nodes;
            }) in
            let (fits, h2) = after-throw_if short uncaught write db1 h1 in rw q (sym (ground arith))
      ]

  emit_diff-SameTables :
      (rid : Uuid) (row : OrgNode) (diff : Diff × Diff) (db : Db) {db' : Db}
      → emit_diff sort_names s t a rid row diff db ≡ ok (tt, db')
      → SameTables db db'
  emit_diff-SameTables rid row ([], after) db h =
      subst (SameTables db) (sym ((pure-eq-ok h).1)) (SameTables-refl db)
  emit_diff-SameTables rid row (b ∷ before, after) db h =
      emit_audit_event-SameTables sort_names s a _ db h

  diff_parent-ok :
      (patch : Patch) (target : OrgNode) (parent : Option OrgNode) (b : Bool) (db : Db)
      {x : Diff × Diff} {db' : Db}
      → diff_parent_to sort_names s t patch target parent b db ≡ ok (x, db')
      → db' ≡ db
  diff_parent-ok patch target none b db h = (pure-eq-ok h).1
  diff_parent-ok patch target (some p) false db h = (pure-eq-ok h).1
  diff_parent-ok patch target (some p) true db h = elim (Option-cases target.parent_id) [
    | inl q ↦ (pure-eq-ok (rw q at h)).1
    | inr (i, q) ↦ (pure-eq-ok (rw q at h)).1
  ]

  emit_edited-SameTables :
      (patch : Patch) (rid : Option Uuid) (target : OrgNode) (parent : Option OrgNode)
      (row : OrgNode) (db : Db) {db' : Db}
      → emit_edited sort_names s t patch a rid target parent row db ≡ ok (tt, db')
      → SameTables db db'
  emit_edited-SameTables patch none target parent row db h =
      subst (SameTables db) (sym ((pure-eq-ok h).1)) (SameTables-refl db)
  emit_edited-SameTables patch (some rid) target parent row db {db'} h =
      let (parents, db1, read, h1) =
        >>=-eq-ok (diff_parent sort_names s t patch target parent) _ db h in
      let same : db1 ≡ db = diff_parent-ok patch target parent _ db read in
      subst (λ d. SameTables d db') same (emit_diff-SameTables rid row _ db1 h1)

  respond_edited-ok :
      (patch : Patch) (rid : Option Uuid) (target : OrgNode) (parent : Option OrgNode) (db : Db)
      {row : OrgNode} {db' : Db}
      → respond_edited sort_names s t patch a rid target parent db ≡ ok (row, db')
      → (find (is_node s t target.id) db.org_nodes ≡ some row) × SameTables db db'
  respond_edited-ok patch rid target parent db {row} {db'} h =
      let answer : OrgNode → Txn OrgNode =
        λ r. emit_edited sort_names s t patch a rid target parent r >> pure r in
      let (r, db1, read, h1) =
        >>=-eq-ok
          (refetch_by_id s t target.id >>= λ fetched.
            or_throw fetched (client_error org_node_not_found))
          answer db h in
      let (found, same) =
        or_throw-eq-ok (find (is_node s t target.id) db.org_nodes) (client_error org_node_not_found)
          read in
      let (u, db2, emitted, h2) =
        >>=-eq-ok (emit_edited sort_names s t patch a rid target parent r) (λ _. pure r) db1 h1 in
      let keeps : SameTables db1 db2 =
        emit_edited-SameTables patch rid target parent r db1 emitted in
      let (is_r, last) = pure-eq-ok h2 in
      (
        found ∙ ap some (sym is_r),
        subst (SameTables db) (sym last) (subst (λ d. SameTables d db2) same keeps),
      )

  -- The two UPDATEs and what is read and emitted after them.
  write_edit-ok :
      (patch : Patch) (rid : Option Uuid) (target : OrgNode) (parent : Option OrgNode) (db : Db)
      {row : OrgNode} {db' : Db}
      → write_edit sort_names s t patch a rid target parent db ≡ ok (row, db')
      → (code_taken_by_other
            (edit patch (new_path parent patch.code target.path) a target)
            db.org_nodes
          ≡ false)
        × (find (is_node s t target.id) db'.org_nodes ≡ some row)
        × SameTables (edited patch (new_path parent patch.code target.path) target db) db'
  write_edit-ok patch rid target parent db {row} {db'} h =
      let path = new_path parent patch.code target.path in
      let answer : Txn OrgNode = respond_edited sort_names s t patch a rid target parent in
      let rest : Txn OrgNode = rewrite_subtree sort_names s t path a target >> answer in
      let (u, db2, written, h1) =
        >>=-eq-ok (update_target sort_names s t patch path a target) (λ _. rest) db h in
      let (free, same) = update_target-ok patch path target db written in
      let h2 : rest (updated_target patch path target db) ≡ ok (row, db') =
        subst (λ d. rest d ≡ ok (row, db')) same h1 in
      let (v, db3, rewritten, h3) =
        >>=-eq-ok (rewrite_subtree sort_names s t path a target) (λ _. answer)
          (updated_target patch path target db) h2 in
      let same' : db3 ≡ edited patch path target db =
        rewrite_subtree-ok patch path target db rewritten in
      let (found, keeps) = respond_edited-ok patch rid target parent db3 h3 in
      (
        free,
        ap (find (is_node s t target.id)) keeps.org_nodes ∙ found,
        subst (λ d. SameTables d db') same' keeps,
      )

  -- An edit that returns has found its target and its new parent, if one is asked for; the code is no
  -- other node's in the tenant; the target's row has been updated, and the paths under it, if its own
  -- has changed; the row it returns is the target's new one, and no other table of data has changed.
  pub edit_node-ok :
      (node_id : Uuid) (patch : Patch) (rid : Option Uuid) (db : Db) (row : OrgNode) (db' : Db)
      → edit_node sort_names s t node_id patch a rid db ≡ ok (row, db')
      → (target : OrgNode) × (parent : Option OrgNode) × (find (is_node s t node_id) db.org_nodes
          ≡ some target)
        × FoundParent patch target parent db
        × (code_taken_by_other
              (edit patch (new_path parent patch.code target.path) a target)
              db.org_nodes
            ≡ false)
        × (find (is_node s t target.id) db'.org_nodes ≡ some row)
        × SameTables (edited patch (new_path parent patch.code target.path) target db) db'
  unfolding edit_node
  edit_node-ok node_id patch rid db row db' h =
      elim (Option-cases (find (is_node s t node_id) db.org_nodes)) [
        | inl e ↦
            let failed : throw {A = OrgNode} (client_error org_node_not_found) db ≡ ok (row, db') =
              rw e at h in
            absurd (cc)
        | inr (target, e) ↦
            let (parent, db1, searched, h1) =
              >>=-eq-ok (find_new_parent sort_names s t patch.reparent target patch.parent_id)
                (write_edit sort_names s t patch a rid target) db (rw e at h) in
            let (same, found) = find_new_parent-ok patch target db searched in
            let h2 : write_edit sort_names s t patch a rid target parent db ≡ ok (row, db') =
              subst (λ d. write_edit sort_names s t patch a rid target parent d ≡ ok (row, db'))
                same h1 in
            let (free, answer, keeps) = write_edit-ok patch rid target parent db h2 in
            (target, parent, e, found, free, answer, keeps)
      ]
