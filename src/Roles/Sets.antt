-- ===== src/Roles/Sets.antt =====
-- Python's sets of ids, as lists without repetition.
use cortex_cm.Base.{
  ◌≡◌, refl, ◌∙◌, Bool, true, false, not, ◌&&◌, List, [], ◌∷◌, length, any, select, ◌==◌,
  if◌then◌else◌, arith, Bool-cases, ==_refl, inl, inr, In, here, there, any_of_In, In_of_any,
  In-cons,
}
use cortex_cm.Models.Columns.{Uuid}

abbrev pub elem : Uuid → List Uuid → Bool
elem i xs = any (λ j. j == i) xs

-- `set(xs)`, and `SELECT DISTINCT`
abbrev pub distinct : List Uuid → List Uuid
distinct [] = []
distinct (x ∷ xs) = let rest = distinct xs in if elem x xs then rest else x ∷ rest

-- `xs - ys`
abbrev pub minus : List Uuid → List Uuid → List Uuid
minus xs ys = select (λ i. not (elem i ys)) xs

pub elem-distinct : (i : Uuid) (xs : List Uuid) → elem i (distinct xs) ≡ elem i xs
elem-distinct i [] = refl
elem-distinct i (x ∷ xs) = elim (Bool-cases (elem x xs)) [
  | inl old ↦ rw old (ground (arith, elem-distinct i xs, elem_at i x xs))
  | inr new ↦ rw new (ground (arith, elem-distinct i xs))
]
  where
    elem_at : (i x : Uuid) (xs : List Uuid) → elem x xs ≡ true → x == i ≡ true → elem i xs ≡ true
    elem_at i x xs h e = let same : x ≡ i = ground arith in rw same at h

pub elem-minus :
    (i : Uuid) (xs ys : List Uuid) → elem i (minus xs ys) ≡ (elem i xs && not (elem i ys))
elem-minus i [] ys = refl
elem-minus i (x ∷ xs) ys = elim (Bool-cases (elem x ys)) [
  | inl old ↦ rw old (ground (arith, elem-minus i xs ys, elem_at i x ys))
  | inr new ↦ rw new (ground (arith, elem-minus i xs ys, not_elem_at i x ys))
]
  where
    elem_at : (i x : Uuid) (ys : List Uuid) → elem x ys ≡ true → x == i ≡ true → elem i ys ≡ true
    elem_at i x ys h e = let same : x ≡ i = ground arith in rw same at h

    not_elem_at :
        (i x : Uuid) (ys : List Uuid) → elem x ys ≡ false → x == i ≡ true → elem i ys ≡ false
    not_elem_at i x ys h e = let same : x ≡ i = ground arith in rw same at h

length-In : {i : Uuid} {ys : List Uuid} → In i ys → (length ys == 0) ≡ false
length-In here = ground arith
length-In (there h) = ground arith

-- A count of distinct ids is zero only where there is none.
pub length-distinct : (xs : List Uuid) {i : Uuid} → In i xs → (length (distinct xs) == 0) ≡ false
length-distinct xs {i} h =
    let (j, at, e) =
      In_of_any (λ j. j == i) (distinct xs)
        (elem-distinct i xs ∙ any_of_In (λ j. j == i) h (==_refl i)) in
    length-In at

pub In-distinct : (xs : List Uuid) {i : Uuid} → In i (distinct xs) → In i xs
In-distinct [] h = h
In-distinct (x ∷ xs) {i} h = elim (Bool-cases (elem x xs)) [
  | inl old ↦ there (In-distinct xs (rw old at h))
  | inr new ↦
      In-cons (In i (x ∷ xs)) x (distinct xs) (λ e. rw e here) (λ k. there (In-distinct xs k))
        (rw new at h)
]

some_In : (ys : List Uuid) → (length ys == 0) ≡ false → (i : Uuid) × In i ys
some_In [] h = absurd (cc)
some_In (x ∷ ys) h = (x, here)

-- A count of distinct ids that is not zero counts one.
pub distinct-some : (xs : List Uuid) → (length (distinct xs) == 0) ≡ false → (i : Uuid) × In i xs
distinct-some xs h = let (i, k) = some_In (distinct xs) h in (i, In-distinct xs k)
