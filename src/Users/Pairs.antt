-- ===== src/Users/Pairs.antt =====
-- Python's sets of `RoleAssignmentTuple` (src/admin_backend/repositories/tenant_users.py), as lists
-- without repetition.
use cortex_cm.Base.{
  ◌≡◌, refl, Bool, true, false, not, ◌&&◌, ◌||◌, List, [], ◌∷◌, ltb, leb, any, select, ◌==◌,
  if◌then◌else◌, arith, Bool-cases, inl, inr,
}
use cortex_cm.Models.Columns.{Uuid}

pub record RoleAssignmentTuple : Type 0 where
  pub role_id : Uuid
  pub org_node_id : Uuid

abbrev pub is_same : RoleAssignmentTuple → RoleAssignmentTuple → Bool
is_same a b = a.role_id == b.role_id && a.org_node_id == b.org_node_id

abbrev pub contains : List RoleAssignmentTuple → RoleAssignmentTuple → Bool
contains pairs a = any (is_same a) pairs

-- `set(pairs)`
abbrev pub set_of : List RoleAssignmentTuple → List RoleAssignmentTuple
set_of [] = []
set_of (a ∷ pairs) = let rest = set_of pairs in if contains pairs a then rest else a ∷ rest

-- `xs - ys`
abbrev pub difference :
    List RoleAssignmentTuple → List RoleAssignmentTuple → List RoleAssignmentTuple
difference xs ys = select (λ a. not (contains ys a)) xs

-- The order of tuples: by role, then by node.
abbrev is_before : RoleAssignmentTuple → RoleAssignmentTuple → Bool
is_before a b =
    ltb a.role_id b.role_id || (a.role_id == b.role_id && leb a.org_node_id b.org_node_id)

abbrev insert_pair : RoleAssignmentTuple → List RoleAssignmentTuple → List RoleAssignmentTuple
insert_pair a [] = a ∷ []
insert_pair a (b ∷ pairs) =
    let rest = insert_pair a pairs in if is_before a b then a ∷ b ∷ pairs else b ∷ rest

-- `sorted(pairs)`
abbrev pub sorted : List RoleAssignmentTuple → List RoleAssignmentTuple
sorted [] = []
sorted (a ∷ pairs) = insert_pair a (sorted pairs)

pub is_same_sound : (a b : RoleAssignmentTuple) → is_same a b ≡ true → a ≡ b
is_same_sound a b h = ground arith

pub is_same_refl : (a : RoleAssignmentTuple) → is_same a a ≡ true
is_same_refl a = ground arith

contains_at :
    (pairs : List RoleAssignmentTuple) (a b : RoleAssignmentTuple) (v : Bool)
    → contains pairs a ≡ v
    → is_same b a ≡ true
    → contains pairs b ≡ v
contains_at pairs a b v h e = rw (is_same_sound b a e) h

pub contains-set_of :
    (pairs : List RoleAssignmentTuple) (a : RoleAssignmentTuple)
    → contains (set_of pairs) a ≡ contains pairs a
contains-set_of [] a = refl
contains-set_of (b ∷ pairs) a = elim (Bool-cases (contains pairs b)) [
  | inl old ↦ rw old (
      ground (
        arith,
        contains-set_of pairs a,
        λ (e : is_same a b ≡ true). contains_at pairs b a true old e,
      ))
  | inr new ↦ rw new (ground (arith, contains-set_of pairs a))
]

pub contains-difference :
    (xs ys : List RoleAssignmentTuple) (a : RoleAssignmentTuple)
    → contains (difference xs ys) a ≡ (contains xs a && not (contains ys a))
contains-difference [] ys a = refl
contains-difference (b ∷ xs) ys a = elim (Bool-cases (contains ys b)) [
  | inl old ↦ rw old (
      ground (
        arith,
        contains-difference xs ys a,
        λ (e : is_same a b ≡ true). contains_at ys b a true old e,
      ))
  | inr new ↦ rw new (
      ground (
        arith,
        contains-difference xs ys a,
        λ (e : is_same a b ≡ true). contains_at ys b a false new e,
      ))
]
