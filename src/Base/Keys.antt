-- ===== src/Base/Keys.antt =====
-- Keys of a table: at most one row has a given key. A null is no key.
use mathlib.Core.Path.{◌≡◌, refl, sym, ap, ◌∙◌}
use mathlib.Core.Logic.{◌⊎◌, inl, inr}
use mathlib.Core.Bool.{Bool, true, false}
use mathlib.Core.Option.{Option, some}
use mathlib.Core.List.{List, [], ◌∷◌}
use native.Mathlib.Omega.{arith}
use cortex_cm.Base.Logic.{if◌then◌else◌, Bool-cases}
use cortex_cm.Base.Lists.{update_where, find}
use cortex_cm.Base.Membership.{In, here, there, In-cons}

module _ {ℓ κ} {A : Type ℓ} {K : Type κ} where
  abbrev pub IsKey : (A → Option K) → List A → Type (ℓ ⊔ κ)
  IsKey key xs = (x y : A) (k : K) → In x xs → In y xs → key x ≡ some k → key y ≡ some k → x ≡ y

module _ {ℓ} {A : Type ℓ} where
  -- Where a row of an updated table comes from.
  abbrev pub Updated : (A → Bool) → (A → A) → List A → A → Type ℓ
  Updated p f xs y = (x : A) × In x xs × (((p x ≡ true) × (y ≡ f x)) ⊎ ((p x ≡ false) × (y ≡ x)))

  pub In-update_where :
      (p : A → Bool) (f : A → A) (xs : List A) {y : A}
      → In y (update_where p f xs)
      → Updated p f xs y
  In-update_where p f [] i = elim i [ ]
  In-update_where p f (x ∷ xs) {y} i =
      In-cons (Updated p f (x ∷ xs) y) (if p x then f x else x) (update_where p f xs)
        (λ e. elim (Bool-cases (p x)) [
          | inl q ↦ (x, here, inl (q, rw q at e))
          | inr q ↦ (x, here, inr (q, rw q at e))
        ])
        (λ j. let (z, k, c) = In-update_where p f xs j in (z, there k, c)) i

module _ {ℓ κ} {A : Type ℓ} {K : Type κ} where
  -- An update that leaves the keys alone leaves them keys.
  pub update_where-IsKey :
      (key : A → Option K) (p : A → Bool) (f : A → A) (xs : List A)
      → ((x : A) → key (f x) ≡ key x)
      → IsKey key xs
      → IsKey key (update_where p f xs)
  update_where-IsKey key p f xs keep unique x' y' k i j e e' =
      let (x, ix, cx) = In-update_where p f xs i in
      let (y, iy, cy) = In-update_where p f xs j in
      let ex : key x ≡ some k = source key f (keep x) cx e in
      let ey : key y ≡ some k = source key f (keep y) cy e' in
      let same : x ≡ y = unique x y k ix iy ex ey in together same cx cy
    where
      source :
          (key : A → Option K) (f : A → A) {b : Bool} {x x' : A} {k : K}
          → key (f x) ≡ key x
          → ((b ≡ true) × (x' ≡ f x)) ⊎ ((b ≡ false) × (x' ≡ x))
          → key x' ≡ some k
          → key x ≡ some k
      source key f keeps (inl (b, q)) e = sym keeps ∙ ap key (sym q) ∙ e
      source key f keeps (inr (b, q)) e = ap key (sym q) ∙ e

      together :
          {x y x' y' : A}
          → x ≡ y
          → ((p x ≡ true) × (x' ≡ f x)) ⊎ ((p x ≡ false) × (x' ≡ x))
          → ((p y ≡ true) × (y' ≡ f y)) ⊎ ((p y ≡ false) × (y' ≡ y))
          → x' ≡ y'
      together same (inl (b, q)) (inl (c, r)) = q ∙ ap f same ∙ sym r
      together same (inr (b, q)) (inr (c, r)) = q ∙ same ∙ sym r
      together same (inl (b, q)) (inr (c, r)) = absurd (cc)
      together same (inr (b, q)) (inl (c, r)) = absurd (cc)

module _ {ℓ} {A : Type ℓ} where
  -- What a search finds is a row of the table.
  pub find-In : (p : A → Bool) (xs : List A) {y : A} → find p xs ≡ some y → In y xs
  find-In p [] e = absurd (cc)
  find-In p (x ∷ xs) {y} e = elim (Bool-cases (p x)) [
    | inl q ↦ let same : y ≡ x = ground arith in rw same here
    | inr q ↦ there (find-In p xs (ground arith))
  ]

  -- A row that is in the table and alone passes the test is the one that a search finds.
  pub find_unique :
      (p : A → Bool) {x : A} {xs : List A}
      → In x xs
      → p x ≡ true
      → ((y : A) → In y xs → p y ≡ true → y ≡ x)
      → find p xs ≡ some x
  find_unique p here e only = rw e refl
  find_unique p {x} (there {y} {xs} i) e only = elim (Bool-cases (p y)) [
    | inl q ↦ rw (q, only y here q) refl
    | inr q ↦ rw q (find_unique p i e (λ z j. only z (there j)))
  ]

module _ {ℓ κ} {A : Type ℓ} {K : Type κ} where
  -- A new row whose key no row has leaves the keys keys.
  pub cons-IsKey :
      (key : A → Option K) (x : A) (xs : List A)
      → ((y : A) (k : K) → In y xs → key x ≡ some k → ¬ (key y ≡ some k))
      → IsKey key xs
      → IsKey key (x ∷ xs)
  cons-IsKey key x xs new unique y z k i j e f =
      In-cons (y ≡ z) x xs
        (λ q.
          In-cons (y ≡ z) x xs (λ r. q ∙ sym r) (λ j'. absurd (new z k j' (ap key (sym q) ∙ e) f))
            j)
        (λ i'.
          In-cons (y ≡ z) x xs (λ r. absurd (new y k i' (ap key (sym r) ∙ f) e))
            (λ j'. unique y z k i' j' e f) j)
        i
