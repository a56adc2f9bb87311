-- ===== src/Base/Membership.antt =====
-- Membership of a row in a list, with its place, and the joins of tables.
use mathlib.Core.Path.{◌≡◌, refl}
use mathlib.Core.Logic.{◌⊎◌, inl, inr}
use mathlib.Core.Bool.{Bool, true, false, not, ◌&&◌}
use mathlib.Core.List.{List, [], ◌∷◌, ◌++◌, map}
use native.Mathlib.Omega.{arith}
use cortex_cm.Base.Logic.{Bool-cases}
use cortex_cm.Base.Lists.{any, select}

-- Membership with its place.
pub data In {ℓ} {A : Type ℓ} (x : A) : List A → Type ℓ where
  here : {xs : List A} → In x (x ∷ xs)
  there : {y : A} {xs : List A} → In x xs → In x (y ∷ xs)

module _ {ℓ} {A : Type ℓ} where
  pub any_of_In : (p : A → Bool) {x : A} {xs : List A} → In x xs → p x ≡ true → any p xs ≡ true
  any_of_In p here e = ground arith
  any_of_In p (there i) e = ground (arith, any_of_In p i e)

  pub In_of_any : (p : A → Bool) (xs : List A) → any p xs ≡ true → (x : A) × In x xs × (p x ≡ true)
  In_of_any p [] e = absurd (cc)
  In_of_any p (x ∷ xs) e = elim (Bool-cases (p x)) [
    | inl q ↦ (x, here, q)
    | inr q ↦ let (y, i, r) = In_of_any p xs (ground arith) in (y, there i, r)
  ]

  -- Where the rows that `p` picks are one row, and that one passes `q`, none is picked that fails `q`.
  pub any-not_passed :
      (p q : A → Bool) (x : A) (xs : List A)
      → ((y : A) → In y xs → p y ≡ true → y ≡ x)
      → q x ≡ true
      → any (λ y. p y && not (q y)) xs ≡ false
  any-not_passed p q x xs only passes = elim (Bool-cases (any (λ y. p y && not (q y)) xs)) [
    | inr e ↦ e
    | inl e ↦
        let (y, at, failed) = In_of_any (λ y. p y && not (q y)) xs e in
        let same : y ≡ x = only y at (ground arith) in
        let fails : (p x && not (q x)) ≡ true = rw same at failed in absurd (ground arith)
  ]

  pub any-select : (p q : A → Bool) (xs : List A) → any q (select p xs) ≡ any (λ x. p x && q x) xs
  any-select p q [] = refl
  any-select p q (x ∷ xs) = ground (arith, any-select p q xs)

  pub In-cons :
      (P : Type ℓ) (y : A) (ys : List A) {x : A} → (x ≡ y → P) → (In x ys → P) → In x (y ∷ ys) → P
  In-cons P y ys f g here = f refl
  In-cons P y ys f g (there i) = g i

  pub In-select : (p : A → Bool) (xs : List A) {x : A} → In x (select p xs) → In x xs × (p x ≡ true)
  In-select p [] i = elim i [ ]
  In-select p (y ∷ xs) {x} i = elim (Bool-cases (p y)) [
    | inl q ↦
        In-cons (In x (y ∷ xs) × (p x ≡ true)) y (select p xs) (λ e. rw e (here, q))
          (λ k. let (j, r) = In-select p xs k in (there j, r)) (rw q at i)
    | inr q ↦ let (j, r) = In-select p xs (rw q at i) in (there j, r)
  ]

  pub select-In : (p : A → Bool) {x : A} {xs : List A} → In x xs → p x ≡ true → In x (select p xs)
  select-In p here e = rw e here
  select-In p (there {y} i) e = elim (Bool-cases (p y)) [
    | inl q ↦ rw q (there (select-In p i e))
    | inr q ↦ rw q (select-In p i e)
  ]

module _ {ℓ} {A : Type ℓ} where
  pub In-append_left : {x : A} {xs : List A} (ys : List A) → In x xs → In x (xs ++ ys)
  In-append_left ys here = here
  In-append_left ys (there i) = there (In-append_left ys i)

  pub In-append_right : {x : A} (xs : List A) {ys : List A} → In x ys → In x (xs ++ ys)
  In-append_right [] i = i
  In-append_right (y ∷ xs) i = there (In-append_right xs i)

  pub In-append : {x : A} (xs ys : List A) → In x (xs ++ ys) → In x xs ⊎ In x ys
  In-append [] ys i = inr i
  In-append (y ∷ xs) ys here = inl here
  In-append (y ∷ xs) ys (there i) = elim (In-append xs ys i) [
    | inl j ↦ inl (there j)
    | inr j ↦ inr j
  ]

module _ {ℓ κ} {A : Type ℓ} {B : Type κ} where
  -- The rows that each row of a table contributes, in order: a join.
  abbrev pub collect : (A → List B) → List A → List B
  collect f [] = []
  collect f (x ∷ xs) = f x ++ collect f xs

  pub any-map : (q : B → Bool) (f : A → B) (xs : List A) → any q (map f xs) ≡ any (λ x. q (f x)) xs
  any-map q f [] = refl
  any-map q f (x ∷ xs) = ground (arith, any-map q f xs)

  pub map-In : (f : A → B) {x : A} {xs : List A} → In x xs → In (f x) (map f xs)
  map-In f here = here
  map-In f (there i) = there (map-In f i)

  pub In-map : (f : A → B) (xs : List A) {y : B} → In y (map f xs) → (x : A) × In x xs × (y ≡ f x)
  In-map f [] i = elim i [ ]
  In-map f (x ∷ xs) here = (x, here, refl)
  In-map f (x ∷ xs) (there i) = let (z, k, e) = In-map f xs i in (z, there k, e)

  pub collect-In :
      (f : A → List B) {x : A} {xs : List A} {y : B} → In x xs → In y (f x) → In y (collect f xs)
  collect-In f (here {xs}) j = In-append_left (collect f xs) j
  collect-In f (there {y = z} i) j = In-append_right (f z) (collect-In f i j)

  pub In-collect :
      (f : A → List B) (xs : List A) {y : B} → In y (collect f xs) → (x : A) × In x xs × In y (f x)
  In-collect f [] i = elim i [ ]
  In-collect f (x ∷ xs) i = elim (In-append (f x) (collect f xs) i) [
    | inl j ↦ (x, here, j)
    | inr j ↦ let (z, k, l) = In-collect f xs j in (z, there k, l)
  ]

  -- `JOIN xs ON p`: what `f` makes of each row of `xs` that satisfies `p`.
  abbrev pub join_on : (A → Bool) → List A → (A → List B) → List B
  join_on p xs f = collect f (select p xs)

  pub In-join_on :
      (p : A → Bool) (xs : List A) (f : A → List B) {y : B}
      → In y (join_on p xs f)
      → (x : A) × In x xs × (p x ≡ true) × In y (f x)
  In-join_on p xs f i =
      let (x, k, l) = In-collect f (select p xs) i in let (j, e) = In-select p xs k in (x, j, e, l)

  pub join_on-In :
      (p : A → Bool) {x : A} {xs : List A} (f : A → List B) {y : B}
      → In x xs
      → p x ≡ true
      → In y (f x)
      → In y (join_on p xs f)
  join_on-In p f i e l = collect-In f (select-In p i e) l

pub In-one {ℓ} : {A : Type ℓ} {x y : A} → In x (y ∷ []) → x ≡ y
In-one here = refl
In-one (there i) = elim i [ ]
