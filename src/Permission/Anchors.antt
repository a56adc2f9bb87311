-- ===== src/Permission/Anchors.antt =====
-- The anchor of a request's target: src/admin_backend/auth/anchor_deps.py.
use cortex_cm.Base.{
  ◌≡◌, ◌≢◌, refl, sym, ap, ◌∙◌, In-one, inl, inr, Bool, true, false, ◌&&◌, Option, none, some, List,
  [], ◌∷◌, arith, Text, ◌==◌, ==_iff, find, Bool-cases, and-split, In, In-join_on, join_on,
}
use cortex_cm.Result.{Result, ok, raise}
use cortex_cm.Errors.{
  Error, client_error, tenant_not_found, org_node_not_found, store_not_found, tenant_user_not_found,
}
use cortex_cm.Models.Columns.{Uuid}
use cortex_cm.Models.OrgNodes.{OrgNode, OrgNodeType}
use cortex_cm.Models.Stores.{Store}
use cortex_cm.Models.TenantUsers.{TenantUser, tenant}
use cortex_cm.Auth.Context.{AuthContext, is_valid_context}
use cortex_cm.Database.Tables.{Db}
use cortex_cm.Database.Session.{Session, session_of, admits, admits_tenant}

-- `node_type = 'TENANT' AND parent_id IS NULL`
abbrev pub is_root_type : OrgNodeType → Option Uuid → Bool
is_root_type OrgNodeType.tenant none = true
is_root_type _ _ = false

abbrev pub is_root_of : Session → Uuid → OrgNode → Bool
is_root_of s t n =
    admits s n.tenant_id && (n.tenant_id == t && is_root_type n.node_type n.parent_id)

abbrev pub is_node : Session → Uuid → Uuid → OrgNode → Bool
is_node s t id n = admits s n.tenant_id && (n.tenant_id == t && n.id == id)

abbrev head? {ℓ} : {A : Type ℓ} → List A → Option A
head? [] = none
head? (x ∷ xs) = some x

abbrev path_of : Option OrgNode → Error → Result Text
path_of none e = raise e
path_of (some n) e = ok n.path

module _ (s : Session) (db : Db) where
  unfoldable pub get_tenant_anchor : Uuid → Result Text
  get_tenant_anchor t = path_of (find (is_root_of s t) db.org_nodes) (client_error tenant_not_found)

  unfoldable pub get_org_node_anchor : Uuid → Uuid → Result Text
  get_org_node_anchor t id =
      path_of (find (is_node s t id) db.org_nodes) (client_error org_node_not_found)

  -- `stores JOIN org_nodes` on the tenant's root, for one store.
  unfoldable pub get_store_anchor : Uuid → Result Text
  get_store_anchor id =
      path_of
        (head? (
          join_on (λ (st : Store). admits s st.tenant_id && st.id == id) db.stores
            (λ st. join_on (is_root_of s st.tenant_id) db.org_nodes (λ n. n ∷ []))))
        (client_error store_not_found)

  unfoldable pub get_tenant_user_anchor : Uuid → Result Text
  get_tenant_user_anchor id =
      path_of
        (head? (
          join_on (λ (u : TenantUser). admits s u.tenant_id && u.id == id) db.tenant_users
            (λ u. join_on (is_root_of s u.tenant_id) db.org_nodes (λ n. n ∷ []))))
        (client_error tenant_user_not_found)

-- A row that a test selects, for a test that only rows of tenant `t` pass: none for a valid caller
-- of another tenant.
find-other_tenant :
    (a : AuthContext) (t : Uuid) (rest : OrgNode → Bool) (ns : List OrgNode)
    → is_valid_context a ≡ true
    → a.user_type ≡ tenant
    → a.tenant_id ≢ some t
    → find (λ n. admits (session_of a) n.tenant_id && (n.tenant_id == t && rest n)) ns ≡ none
find-other_tenant a t rest [] v ty ne = refl
find-other_tenant a t rest (n ∷ ns) v ty ne =
    elim (Bool-cases (admits (session_of a) n.tenant_id && (n.tenant_id == t && rest n))) [
      | inl e ↦
          let (seen, e') = and-split (admits (session_of a) n.tenant_id) _ e in
          let (same, _) = and-split (n.tenant_id == t) (rest n) e' in
          absurd (ne (admits_tenant a n.tenant_id v ty seen ∙ ap some ((==_iff _ _).0 same)))
      | inr e ↦ rw e (find-other_tenant a t rest ns v ty ne)
    ]

-- A valid tenant caller that names another tenant gets the answer of a tenant, and of a node, that
-- is not there, whatever the database holds.
pub anchor_of_other_tenant :
    (db : Db) (a : AuthContext) (t id : Uuid)
    → is_valid_context a ≡ true
    → a.user_type ≡ tenant
    → a.tenant_id ≢ some t
    → (get_tenant_anchor (session_of a) db t ≡ raise (client_error tenant_not_found))
      × (get_org_node_anchor (session_of a) db t id ≡ raise (client_error org_node_not_found))
unfolding get_tenant_anchor get_org_node_anchor
anchor_of_other_tenant db a t id v ty ne = (
  rw (find-other_tenant a t (λ n. is_root_type n.node_type n.parent_id) db.org_nodes v ty ne) refl,
  rw (find-other_tenant a t (λ n. n.id == id) db.org_nodes v ty ne) refl,
)

In_of_head? {ℓ} : {A : Type ℓ} (xs : List A) {x : A} → head? xs ≡ some x → In x xs
In_of_head? [] e = absurd (cc)
In_of_head? (y ∷ xs) {x} e = let p : x ≡ y = ground arith in rw p In.here

path_of-eq-ok :
    (o : Option OrgNode) (e : Error) {p : Text}
    → path_of o e ≡ ok p
    → (n : OrgNode) × (o ≡ some n) × (n.path ≡ p)
path_of-eq-ok none e h = absurd (cc)
path_of-eq-ok (some n) e h = (n, refl, ground arith)

-- An anchor found for a store id is the path of a root node of the tenant of a store with that id,
-- and the store is visible to the session.
pub get_store_anchor_sound :
    (s : Session) (db : Db) (id : Uuid) (p : Text)
    → get_store_anchor s db id ≡ ok p
    → (st : Store) × (n : OrgNode) × In st db.stores
      × In n db.org_nodes
      × (st.id ≡ id)
      × (n.tenant_id ≡ st.tenant_id)
      × (is_root_type n.node_type n.parent_id ≡ true)
      × (admits s st.tenant_id ≡ true)
      × (n.path ≡ p)
unfolding get_store_anchor
get_store_anchor_sound s db id p e =
    let (n, h, q) = path_of-eq-ok _ (client_error store_not_found) e in
    let (st, ist, c, i) = In-join_on _ db.stores _ (In_of_head? _ h) in
    let (m, im, d, j) = In-join_on (is_root_of s st.tenant_id) db.org_nodes (λ n. n ∷ []) i in
    let same : n ≡ m = In-one j in
    let (seen, named) = and-split (admits s st.tenant_id) _ c in
    let (_, d') = and-split (admits s m.tenant_id) _ d in
    let (own, root) = and-split (m.tenant_id == st.tenant_id) _ d' in
    (
      st,
      m,
      ist,
      im,
      (==_iff _ _).0 named,
      (==_iff _ _).0 own,
      root,
      seen,
      ap (λ (o : OrgNode). o.path) (sym same) ∙ q,
    )
