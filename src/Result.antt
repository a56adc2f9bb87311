-- ===== src/Result.antt =====
-- Python's exceptions as a result, with the notation of `do` blocks.
use cortex_cm.Base.{◌≡◌, refl, Bool, if◌then◌else◌, Option, none, some}
use cortex_cm.Errors.{Error}

pub data Result {ℓ} (A : Type ℓ) : Type ℓ where
  raise : Error → Result A
  ok : A → Result A

-- `if x is None: raise e`
abbrev pub or_raise {ℓ} : {A : Type ℓ} → Option A → Error → Result A
or_raise found e = elim found [ none ↦ raise e | some a ↦ ok a ]

-- `if c: raise e`
abbrev pub raise_if : Bool → Error → Result (Unit {0})
raise_if c e = if c then raise e else ok tt

infixl 5 ◌>>=◌ ◌>>◌
abbrev pub ◌>>=◌ {ℓ κ} : {A : Type ℓ} {B : Type κ} → Result A → (A → Result B) → Result B
◌>>=◌ m then_do = elim m [ raise e ↦ raise e | ok a ↦ then_do a ]

abbrev pub ◌>>◌ {κ} : {B : Type κ} → Result (Unit {0}) → Result B → Result B
◌>>◌ check rest = check >>= λ _. rest

module _ {ℓ κ} {A : Type ℓ} {B : Type κ} where
  -- A value that came out of two steps: the first step's, from which the second made it.
  pub >>=-eq-ok :
      (first : Result A) (second : A → Result B) {b : B}
      → (first >>= second) ≡ ok b
      → (a : A) × (first ≡ ok a) × (second a ≡ ok b)
  >>=-eq-ok (raise e) second q = absurd (cc)
  >>=-eq-ok (ok a) second q = (a, refl, q)
