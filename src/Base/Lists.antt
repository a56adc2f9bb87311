-- ===== src/Base/Lists.antt =====
-- Rows of a table: selection, update, and predicates on all rows.
use Prim.Native.Nat.{ℕ, zero, suc}
use mathlib.Core.Path.{◌≡◌, refl, subst}
use mathlib.Core.Logic.{inl, inr}
use mathlib.Core.Bool.{Bool, true, false, ◌&&◌, ◌||◌}
use mathlib.Core.Option.{Option, none, some}
use mathlib.Core.List.{List, [], ◌∷◌, ◌++◌}
use native.Mathlib.Omega.{arith}
use cortex_cm.Base.Logic.{if◌then◌else◌, Bool-cases, is_some}

module _ {ℓ} {A : Type ℓ} where
  abbrev pub length : List A → ℕ
  length [] = 0
  length (x ∷ xs) = suc (length xs)

  -- `SELECT ... WHERE p LIMIT 1`
  abbrev pub find : (A → Bool) → List A → Option A
  find p [] = none
  find p (x ∷ xs) = if p x then some x else find p xs

  -- `SELECT ... WHERE p`
  abbrev pub select : (A → Bool) → List A → List A
  select p [] = []
  select p (x ∷ xs) = let rest = select p xs in if p x then x ∷ rest else rest

  -- `EXISTS (SELECT ... WHERE p)`
  abbrev pub any : (A → Bool) → List A → Bool
  any p [] = false
  any p (x ∷ xs) = p x || any p xs

  abbrev pub all : (A → Bool) → List A → Bool
  all p [] = true
  all p (x ∷ xs) = p x && all p xs

  -- `LIMIT n`, and Python's `rows[:n]`
  abbrev pub take : ℕ → List A → List A
  take zero xs = []
  take (suc n) [] = []
  take (suc n) (x ∷ xs) = x ∷ take n xs

  abbrev pub head : List A → Option A
  head [] = none
  head (x ∷ _) = some x

  abbrev pub last : List A → Option A
  last [] = none
  last (x ∷ []) = some x
  last (_ ∷ y ∷ xs) = last (y ∷ xs)

  -- `UPDATE ... SET f WHERE p`
  abbrev pub update_where : (A → Bool) → (A → A) → List A → List A
  update_where p f [] = []
  update_where p f (x ∷ xs) = (if p x then f x else x) ∷ update_where p f xs

-- What holds of every row.
module _ {ℓ κ} {A : Type ℓ} where
  abbrev pub All : (A → Type κ) → List A → Type κ
  All P [] = Unit
  All P (x ∷ xs) = P x × All P xs

  -- An update keeps what holds of all rows, if it keeps it of each row that it changes.
  pub All-update_where :
      (P : A → Type κ) (p : A → Bool) (f : A → A) (xs : List A)
      → ((x : A) → p x ≡ true → P x → P (f x))
      → All P xs
      → All P (update_where p f xs)
  All-update_where P p f [] keep h = tt
  All-update_where P p f (x ∷ xs) keep h = (
    elim (Bool-cases (p x)) [ inl e ↦ rw e (keep x e h.0) | inr e ↦ rw e h.0 ],
    All-update_where P p f xs keep h.1,
  )

  pub All-find :
      (P : A → Type κ) (p : A → Bool) (xs : List A) {y : A} → All P xs → find p xs ≡ some y → P y
  All-find P p [] h e = absurd (cc)
  All-find P p (x ∷ xs) {y} h e = elim (Bool-cases (p x)) [
    | inl q ↦ let same : x ≡ y = ground arith in subst P same h.0
    | inr q ↦ All-find P p xs h.1 (ground arith)
  ]

module _ {ℓ} {A : Type ℓ} where
  -- What a selection returns satisfies its condition.
  pub find_sound : (p : A → Bool) (xs : List A) {y : A} → find p xs ≡ some y → p y ≡ true
  find_sound p [] e = cc
  find_sound p (x ∷ xs) e = elim (Bool-cases (p x)) [
    | inl q ↦ ground arith
    | inr q ↦ find_sound p xs (ground arith)
  ]

  pub find-none : (p : A → Bool) (xs : List A) → any p xs ≡ false → find p xs ≡ none
  find-none p [] e = refl
  find-none p (x ∷ xs) e = ground (arith, find-none p xs)

  pub any-find : (p : A → Bool) (xs : List A) → any p xs ≡ is_some (find p xs)
  any-find p [] = refl
  any-find p (x ∷ xs) = ground (arith, any-find p xs)

  pub any-append : (p : A → Bool) (xs ys : List A) → any p (xs ++ ys) ≡ (any p xs || any p ys)
  any-append p [] ys = refl
  any-append p (x ∷ xs) ys = ground (arith, any-append p xs ys)

  pub any-imp :
      (p q : A → Bool) (xs : List A)
      → ((x : A) → p x ≡ true → q x ≡ true)
      → any p xs ≡ true
      → any q xs ≡ true
  any-imp p q [] imp e = e
  any-imp p q (x ∷ xs) imp e = ground (arith, imp x, any-imp p q xs imp)
