-- ===== src/Audit/Keyset.antt =====
-- The order of the audit listing: distinct rows come out strictly descending, a condition on rows
-- goes past the sorting, and the rows after a row are those that follow it.
use cortex_cm.Base.{
  ◌≡◌, refl, ap, ◌∙◌, ◌⊎◌, inl, inr, Bool, true, false, List, [], ◌∷◌, ◌++◌, if◌then◌else◌, arith,
  Bool-cases, All, select,
}
use cortex_cm.Audit.Activities.{AuditActivityDetailRow, is_after, key, insert, order_by}

abbrev pub Row : Type 0
Row = AuditActivityDetailRow

-- `Before x y`: x stands before y in the listing.
abbrev pub Before : Row → Row → Type 0
Before x y = is_after (key x) y ≡ true

abbrev pub Distinct : List Row → Type 0
Distinct [] = Unit
Distinct (x ∷ xs) = All (λ y. Before x y ⊎ Before y x) xs × Distinct xs

abbrev pub Descending : List Row → Type 0
Descending [] = Unit
Descending (x ∷ xs) = All (Before x) xs × Descending xs

Before-trans : (x y z : Row) → Before x y → Before y z → Before x z
Before-trans x y z h k = ground arith

pub Before_irrefl : (x : Row) → is_after (key x) x ≡ false
Before_irrefl x = ground arith

pub Before-asymm : (x y : Row) → Before x y → is_after (key y) x ≡ false
Before-asymm x y h = ground arith

module _ {ℓ κ} {A : Type ℓ} where
  pub All-imp : (P Q : A → Type κ) (xs : List A) → ((x : A) → P x → Q x) → All P xs → All Q xs
  All-imp P Q [] imp h = tt
  All-imp P Q (x ∷ xs) imp h = (imp x h.0, All-imp P Q xs imp h.1)

  pub All-select : (P : A → Type κ) (p : A → Bool) (xs : List A) → All P xs → All P (select p xs)
  All-select P p [] h = tt
  All-select P p (x ∷ xs) h = elim (Bool-cases (p x)) [
    | inl e ↦ rw e (h.0, All-select P p xs h.1)
    | inr e ↦ rw e (All-select P p xs h.1)
  ]

  pub All-middle :
      (P : A → Type κ) (pre : List A) (x : A) (post : List A) → All P (pre ++ (x ∷ post)) → P x
  All-middle P [] x post h = h.0
  All-middle P (y ∷ pre) x post h = All-middle P pre x post h.1

All-insert : (P : Row → Type 0) (x : Row) (ys : List Row) → P x → All P ys → All P (insert x ys)
All-insert P x [] px h = (px, tt)
All-insert P x (y ∷ ys) px h = elim (Bool-cases (is_after (key x) y)) [
  | inl e ↦ rw e (px, h)
  | inr e ↦ rw e (h.0, All-insert P x ys px h.1)
]

pub All-order_by : (P : Row → Type 0) (xs : List Row) → All P xs → All P (order_by xs)
All-order_by P [] h = tt
All-order_by P (x ∷ xs) h = All-insert P x (order_by xs) h.0 (All-order_by P xs h.1)

insert-Descending :
    (x : Row) (ys : List Row)
    → All (λ y. Before x y ⊎ Before y x) ys
    → Descending ys
    → Descending (insert x ys)
insert-Descending x [] apart d = (tt, tt)
insert-Descending x (y ∷ ys) apart d = elim (Bool-cases (is_after (key x) y)) [
  | inl e ↦ rw e ((e, All-imp (Before y) (Before x) ys (λ z. Before-trans x y z e) d.0), d)
  | inr e ↦
      let y_first : Before y x = elim apart.0 [ inl h ↦ absurd (cc) | inr h ↦ h ] in
      rw e (All-insert (Before y) x ys y_first d.0, insert-Descending x ys apart.1 d.1)
]

-- Sorting makes distinct rows strictly descending.
pub order_by-Descending : (xs : List Row) → Distinct xs → Descending (order_by xs)
order_by-Descending [] d = tt
order_by-Descending (x ∷ xs) d =
    insert-Descending x (order_by xs) (All-order_by (λ y. Before x y ⊎ Before y x) xs d.0)
      (order_by-Descending xs d.1)

insert_front : (x : Row) (ys : List Row) → All (Before x) ys → insert x ys ≡ x ∷ ys
insert_front x [] h = refl
insert_front x (y ∷ ys) h = rw h.0 refl

module _ {ℓ} {A : Type ℓ} where
  by_true : {b : Bool} {v : A} (s t : A) → b ≡ true → v ≡ (if b then s else t) → v ≡ s
  by_true s t q h = cc

  by_false : {b : Bool} {v : A} (s t : A) → b ≡ false → v ≡ (if b then s else t) → v ≡ t
  by_false s t q h = cc

select-insert :
    (p : Row → Bool) (x : Row) (ys : List Row)
    → Descending ys
    → select p (insert x ys) ≡ (if p x then insert x (select p ys) else select p ys)
select-insert p x [] d = refl
select-insert p x (y ∷ ys) d = elim (Bool-cases (is_after (key x) y)) [
  | inl e ↦
      let first : All (Before x) (y ∷ ys) =
        (e, All-imp (Before y) (Before x) ys (λ z. Before-trans x y z e) d.0) in
      let front : insert x (select p (y ∷ ys)) ≡ x ∷ select p (y ∷ ys) =
        insert_front x (select p (y ∷ ys)) (All-select (Before x) p (y ∷ ys) first) in
      rw front (rw e refl)
  | inr e ↦
      let rec = select-insert p x ys d.1 in
      elim (Bool-cases (p y)) [
        | inl r ↦ elim (Bool-cases (p x)) [
          | inl q ↦ rw e (rw r (rw q (rw e (ap (λ zs. y ∷ zs) (by_true _ _ q rec)))))
          | inr q ↦ rw e (rw r (rw q (ap (λ zs. y ∷ zs) (by_false _ _ q rec))))
        ]
        | inr r ↦ rw e (rw r rec)
      ]
]

-- A condition may be tested before or after the sorting.
pub select-order_by :
    (p : Row → Bool) (xs : List Row) → Distinct xs → select p (order_by xs) ≡ order_by (select p xs)
select-order_by p [] d = refl
select-order_by p (x ∷ xs) d =
    let step = select-insert p x (order_by xs) (order_by-Descending xs d.1) in
    let rec = select-order_by p xs d.1 in
    step ∙ elim (Bool-cases (p x)) [ inl e ↦ rw e (ap (insert x) rec) | inr e ↦ rw e rec ]

select-All : (p : Row → Bool) (xs : List Row) → All (λ x. p x ≡ true) xs → select p xs ≡ xs
select-All p [] h = refl
select-All p (x ∷ xs) h = rw h.0 (ap (λ ys. x ∷ ys) (select-All p xs h.1))

-- The rows after the row x are those that follow it in the list.
pub select-is_after :
    (pre : List Row) (x : Row) (post : List Row)
    → Descending (pre ++ (x ∷ post))
    → select (is_after (key x)) (pre ++ (x ∷ post)) ≡ post
select-is_after [] x post d = rw (Before_irrefl x) (select-All (is_after (key x)) post d.0)
select-is_after (y ∷ pre) x post d =
    let y_first : Before y x = All-middle (Before y) pre x post d.0 in
    rw (Before-asymm y x y_first) (select-is_after pre x post d.1)
