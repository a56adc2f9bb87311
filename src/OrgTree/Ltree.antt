-- ===== src/OrgTree/Ltree.antt =====
-- Paths of the organisation tree: the texts that the program handles, the `ltree` values that the
-- database reads them as (labels between dots), and `_is_descendant` of
-- src/admin_backend/repositories/org_nodes.py.
use cortex_cm.Base.{
  ℕ, ◌≡◌, refl, sym, ◌∙◌, inl, inr, Bool, true, false, ◌&&◌, List, [], ◌∷◌, ◌++◌, arith, Text,
  text_eq, text_eq_iff, text_eq_refl, if◌then◌else◌, Bool-cases, ◌==◌,
}

-- `c` put before the first label.
abbrev pub push : ℕ → List Text → List Text
push c [] = (c ∷ []) ∷ []
push c (l ∷ ls) = (c ∷ l) ∷ ls

-- `CAST(path AS ltree)`, and Python's `path.split(".")`.
abbrev pub labels : Text → List Text
labels [] = [] ∷ []
labels (c ∷ t) = let rest = labels t in if c == b'.' then [] ∷ rest else push c rest

-- The text of an `ltree`.
abbrev pub join : List Text → Text
join [] = []
join (l ∷ []) = l
join (l ∷ m ∷ ls) = l ++ b'.' ∷ join (m ∷ ls)

abbrev pub is_prefix : List Text → List Text → Bool
is_prefix [] ms = true
is_prefix (l ∷ ls) [] = false
is_prefix (l ∷ ls) (m ∷ ms) = text_eq l m && is_prefix ls ms

-- `descendant <@ ancestor`
unfoldable pub is_contained : Text → Text → Bool
is_contained descendant ancestor = is_prefix (labels ancestor) (labels descendant)

-- `candidate.startswith(prefix)`
abbrev pub starts_with : Text → Text → Bool
starts_with [] t = true
starts_with (p ∷ ps) [] = false
starts_with (p ∷ ps) (c ∷ t) = p == c && starts_with ps t

unfoldable pub is_descendant : Text → Text → Bool
is_descendant candidate ancestor =
    if text_eq candidate ancestor then true else starts_with (ancestor ++ b'.' ∷ []) candidate

pub labels-cons : (t : Text) → (l : Text) × (ls : List Text) × (labels t ≡ l ∷ ls)
labels-cons [] = ([], [], refl)
labels-cons (c ∷ t) =
    let (l, ls, e) = labels-cons t in
    elim (Bool-cases (c == b'.')) [ inl d ↦ ([], labels t, rw d) | inr d ↦ (c ∷ l, ls, rw (d, e)) ]

-- One character more at the front of both, no dot.
is_prefix-push :
    (c : ℕ) (l m : Text) (ls ms : List Text)
    → is_prefix (push c (l ∷ ls)) (push c (m ∷ ms)) ≡ is_prefix (l ∷ ls) (m ∷ ms)
is_prefix-push c l m ls ms = ground arith

-- The same answer by a walk over both texts.
abbrev walk : Text → Text → Bool
walk [] [] = true
walk [] (c ∷ t) = c == b'.'
walk (a ∷ s) [] = false
walk (a ∷ s) (c ∷ t) = a == c && walk s t

is_descendant-walk : (c a : Text) → is_descendant c a ≡ walk a c
unfolding is_descendant
is_descendant-walk [] [] = refl
is_descendant-walk (c ∷ t) [] = ground arith
is_descendant-walk [] (a ∷ s) = refl
is_descendant-walk (c ∷ t) (a ∷ s) = ground (arith, is_descendant-walk t s)

is_prefix-walk : (a c : Text) → is_prefix (labels a) (labels c) ≡ walk a c
is_prefix-walk [] [] = refl
is_prefix-walk [] (c ∷ t) = let (m, ms, e) = labels-cons t in rw e (ground arith)
is_prefix-walk (a ∷ s) [] =
    let (l, ls, e) = labels-cons s in
    rw e (elim (Bool-cases (a == b'.')) [ inl d ↦ rw d refl | inr d ↦ rw d refl ])
is_prefix-walk (a ∷ s) (c ∷ t) =
    let (l, ls, e) = labels-cons s in
    let (m, ms, f) = labels-cons t in
    let ih : is_prefix (l ∷ ls) (m ∷ ms) ≡ walk s t = rw (e, f) at (is_prefix-walk s t) in
    rw (e, f) (ground (arith, ih, is_prefix-push a l m ls ms))

-- The test on texts answers as the database does: the ancestor's labels begin the candidate's.
pub is_descendant-eq-is_contained : (c a : Text) → is_descendant c a ≡ is_contained c a
unfolding is_contained
is_descendant-eq-is_contained c a = is_descendant-walk c a ∙ sym (is_prefix-walk a c)

pub is_contained_refl : (t : Text) → is_contained t t ≡ true
unfolding is_descendant
is_contained_refl t = sym (is_descendant-eq-is_contained t t) ∙ (rw (text_eq_refl t) refl)

pub is_prefix_trans :
    (a b c : List Text) → is_prefix a b ≡ true → is_prefix b c ≡ true → is_prefix a c ≡ true
is_prefix_trans [] b c e f = refl
is_prefix_trans (x ∷ a) [] c e f = absurd (cc)
is_prefix_trans (x ∷ a) (y ∷ b) [] e f = absurd (cc)
is_prefix_trans (x ∷ a) (y ∷ b) (z ∷ c) e f =
    ground (arith, text_eq_iff x y, text_eq_iff y z, text_eq_iff x z, is_prefix_trans a b c)
