-- ===== src/OrgTree/Paths.antt =====
-- Paths as texts and as labels: `split`, `rsplit` and the operators `nlevel`, `subpath` and `||` as
-- `OrgNodesRepo.edit_node` of src/admin_backend/repositories/org_nodes.py uses them.
use cortex_cm.Base.{
  ℕ, zero, suc, ◌≡◌, refl, sym, ◌∙◌, ap, ◌⊎◌, inl, inr, Bool, true, false, List, [], ◌∷◌, ◌++◌,
  arith, Text, text_eq, text_eq_iff, any, length, Bool-cases, ◌==◌, ==_iff,
}
use mathlib.Core.List.{append_assoc, append-nil}
use cortex_cm.OrgTree.Ltree.{push, labels, join, is_prefix, is_contained, labels-cons}

module _ {ℓ} {A : Type ℓ} where
  abbrev pub drop : ℕ → List A → List A
  drop zero xs = xs
  drop (suc n) [] = []
  drop (suc n) (x ∷ xs) = drop n xs

  -- All but the last element.
  abbrev pub init : List A → List A
  init [] = []
  init (x ∷ []) = []
  init (x ∷ y ∷ xs) = x ∷ init (y ∷ xs)

  drop-append : (xs ys : List A) → drop (length xs) (xs ++ ys) ≡ ys
  drop-append [] ys = refl
  drop-append (x ∷ xs) ys = drop-append xs ys

  init-append : (xs : List A) (y : A) → init (xs ++ y ∷ []) ≡ xs
  init-append [] y = refl
  init-append (x ∷ []) y = refl
  init-append (x ∷ z ∷ xs) y = ap (λ ys. x ∷ ys) (init-append (z ∷ xs) y)

-- `labels[-1]` of labels, of which there is always one.
abbrev pub last : List Text → Text
last [] = []
last (x ∷ []) = x
last (x ∷ y ∷ xs) = last (y ∷ xs)

last-append : (xs : List Text) (y : Text) → last (xs ++ y ∷ []) ≡ y
last-append [] y = refl
last-append (x ∷ []) y = refl
last-append (x ∷ z ∷ xs) y = last-append (z ∷ xs) y

-- `path.split(".")[-1]`
unfoldable pub last_label : Text → Text
last_label path = last (labels path)

-- `path.rsplit(".", 1)[0]`
unfoldable pub parent_prefix : Text → Text
parent_prefix path = join (init (labels path))

-- `"." in path`
abbrev pub has_dot : Text → Bool
has_dot path = any (λ c. c == b'.') path

-- `new || subpath(path, nlevel(old))`
unfoldable pub repath : Text → Text → Text → Text
repath new old path = join (labels new ++ drop (length (labels old)) (labels path))

labels-append : (s t : Text) → labels (s ++ b'.' ∷ t) ≡ labels s ++ labels t
labels-append [] t = refl
labels-append (c ∷ s) t =
    let (l, ls, e) = labels-cons s in
    let ih : labels (s ++ b'.' ∷ t) ≡ (l ∷ ls) ++ labels t = rw e at (labels-append s t) in
    elim (Bool-cases (c == b'.')) [ inl d ↦ rw (d, ih, e) refl | inr d ↦ rw (d, ih, e) refl ]

join-labels : (t : Text) → join (labels t) ≡ t
join-labels [] = refl
join-labels (c ∷ t) =
    let (l, ls, e) = labels-cons t in
    let ih : join (l ∷ ls) ≡ t = rw e at (join-labels t) in
    elim (Bool-cases (c == b'.')) [
      | inl d ↦ let same : c ≡ b'.' = (==_iff c b'.').0 d in rw (d, e, ih, same) refl
      | inr d ↦ rw (d, e) (join-push c l ls ∙ ap (λ s. c ∷ s) ih)
    ]
  where
    join-push : (c : ℕ) (l : Text) (ls : List Text) → join (push c (l ∷ ls)) ≡ c ∷ join (l ∷ ls)
    join-push c l [] = refl
    join-push c l (m ∷ ls) = refl

join-append :
    (l : Text) (ls : List Text) (m : Text) → join ((l ∷ ls) ++ m ∷ []) ≡ join (l ∷ ls) ++ b'.' ∷ m
join-append l [] m = refl
join-append l (k ∷ ls) m =
    ap (λ t. l ++ b'.' ∷ t) (join-append k ls m) ∙ sym (append_assoc l (b'.' ∷ join (k ∷ ls)) _)

labels-inj : (s t : Text) → labels s ≡ labels t → s ≡ t
labels-inj s t e = sym (join-labels s) ∙ ap join e ∙ join-labels t

-- A text without a dot is one label.
pub labels-dotless : (l : Text) → has_dot l ≡ false → labels l ≡ l ∷ []
labels-dotless [] h = refl
labels-dotless (c ∷ l) h =
    let no : (c == b'.') ≡ false = ground arith in
    let ih : labels l ≡ l ∷ [] = labels-dotless l (ground arith) in rw (no, ih) refl

labels-child : (p l : Text) → has_dot l ≡ false → labels (p ++ b'.' ∷ l) ≡ labels p ++ l ∷ []
labels-child p l h = labels-append p l ∙ ap (λ ls. labels p ++ ls) (labels-dotless l h)

pub last_label-child : (p l : Text) → has_dot l ≡ false → last_label (p ++ b'.' ∷ l) ≡ l
unfolding last_label
last_label-child p l h = ap last (labels-child p l h) ∙ last-append (labels p) l

pub last_label-dotless : (l : Text) → has_dot l ≡ false → last_label l ≡ l
unfolding last_label
last_label-dotless l h = ap last (labels-dotless l h)

pub parent_prefix-child : (p l : Text) → has_dot l ≡ false → parent_prefix (p ++ b'.' ∷ l) ≡ p
unfolding parent_prefix
parent_prefix-child p l h =
    ap (λ ls. join (init ls)) (labels-child p l h)
    ∙ ap join (init-append (labels p) l)
    ∙ join-labels p

pub has_dot-child : (p l : Text) → has_dot (p ++ b'.' ∷ l) ≡ true
has_dot-child [] l = refl
has_dot-child (c ∷ p) l = ground (arith, has_dot-child p l)

is_prefix-drop : (ls ms : List Text) → is_prefix ls ms ≡ true → ms ≡ ls ++ drop (length ls) ms
is_prefix-drop [] ms h = refl
is_prefix-drop (a ∷ ls) [] h = absurd (cc)
is_prefix-drop (a ∷ ls) (b ∷ ms) h =
    let same : a ≡ b = (text_eq_iff a b).0 (ground arith) in
    let ih : ms ≡ ls ++ drop (length ls) ms = is_prefix-drop ls ms (ground arith) in
    rw (← same) (ap (λ ks. a ∷ ks) ih)

is_prefix-snoc :
    (ls ms : List Text) (l : Text)
    → is_prefix ls (ms ++ l ∷ []) ≡ true
    → (is_prefix ls ms ≡ true) ⊎ (ls ≡ ms ++ l ∷ [])
is_prefix-snoc [] ms l h = inl refl
is_prefix-snoc (a ∷ []) [] l h = inr (rw ((text_eq_iff a l).0 (ground arith)) refl)
is_prefix-snoc (a ∷ c ∷ ls) [] l h = absurd (ground arith)
is_prefix-snoc (a ∷ ls) (b ∷ ms) l h =
    let same : text_eq a b ≡ true = ground arith in
    elim (is_prefix-snoc ls ms l (ground arith)) [
      | inl q ↦ inl (rw (same, q) refl)
      | inr q ↦ inr (rw (q, (text_eq_iff a b).0 same) refl)
    ]

-- What contains a child's path contains the parent's, or is the child's itself.
pub is_contained-child :
    (p l a : Text)
    → has_dot l ≡ false
    → is_contained (p ++ b'.' ∷ l) a ≡ true
    → (is_contained p a ≡ true) ⊎ (a ≡ p ++ b'.' ∷ l)
unfolding is_contained
is_contained-child p l a h e =
    elim (is_prefix-snoc (labels a) (labels p) l (rw (labels-child p l h) at e)) [
      | inl q ↦ inl q
      | inr q ↦ inr (labels-inj a (p ++ b'.' ∷ l) (q ∙ sym (labels-child p l h)))
    ]

-- One label is contained in nothing but itself.
pub is_contained-dotless : (l a : Text) → has_dot l ≡ false → is_contained l a ≡ true → a ≡ l
unfolding is_contained
is_contained-dotless l a h e =
    let (k, ks, q) = labels-cons a in
    let one : is_prefix (k ∷ ks) ([] ++ l ∷ []) ≡ true = rw (q, labels-dotless l h) at e in
    elim (is_prefix-snoc (k ∷ ks) [] l one) [
      | inl none ↦ absurd (cc)
      | inr same ↦ labels-inj a l (q ∙ same ∙ sym (labels-dotless l h))
    ]

-- The new path of a child is under the new path of its parent.
pub repath-child :
    (new old p l : Text)
    → has_dot l ≡ false
    → is_contained p old ≡ true
    → repath new old (p ++ b'.' ∷ l) ≡ repath new old p ++ b'.' ∷ l
unfolding repath is_contained
repath-child new old p l h e =
    let rest = drop (length (labels old)) (labels p) in
    let (k, ks, q) = labels-cons new in
    let split : labels p ≡ labels old ++ rest = is_prefix-drop (labels old) (labels p) e in
    let whole : labels (p ++ b'.' ∷ l) ≡ labels old ++ (rest ++ l ∷ []) =
      labels-child p l h ∙ ap (λ ls. ls ++ l ∷ []) split ∙ append_assoc (labels old) rest _ in
    ap (λ ls. join (labels new ++ drop (length (labels old)) ls)) whole
    ∙ ap (λ ls. join (labels new ++ ls)) (drop-append (labels old) (rest ++ l ∷ []))
    ∙ ap join (sym (append_assoc (labels new) rest (l ∷ [])))
    ∙ rw q (join-append k (ks ++ rest) l)

pub repath-old : (new old : Text) → repath new old old ≡ new
unfolding repath
repath-old new old =
    ap (λ ls. join (labels new ++ drop (length (labels old)) ls)) (sym (append-nil (labels old)))
    ∙ ap (λ ls. join (labels new ++ ls)) (drop-append (labels old) [])
    ∙ ap join (append-nil (labels new))
    ∙ join-labels new

pub repath-same : (old p : Text) → is_contained p old ≡ true → repath old old p ≡ p
unfolding repath is_contained
repath-same old p e = ap join (sym (is_prefix-drop (labels old) (labels p) e)) ∙ join-labels p

is_prefix-longer : (ls : List Text) (l : Text) → is_prefix (ls ++ l ∷ []) ls ≡ false
is_prefix-longer [] l = refl
is_prefix-longer (k ∷ ls) l = ground (arith, is_prefix-longer ls l)

-- A child's path does not contain its parent's.
pub is_contained-child_parent :
    (p l : Text) → has_dot l ≡ false → is_contained p (p ++ b'.' ∷ l) ≡ false
unfolding is_contained
is_contained-child_parent p l h = rw (labels-child p l h) (is_prefix-longer (labels p) l)
