-- ===== src/Database/Txn.antt =====
-- Statements of one transaction: state passing, with an exception that ends the handler.
use cortex_cm.Base.{sym, arith, ap, ◌≡◌, ◌⊎◌, inl, inr, refl, Bool, true, false, Option, none, some}
use cortex_cm.Errors.{Error}
use cortex_cm.Database.Tables.{Db}
use cortex_cm.Result.{Result, ok, raise}

abbrev pub Txn : Type 0 → Type 0
Txn A = Db → Result (A × Db)

module _ {A : Type 0} where
  abbrev pub pure : A → Txn A
  pure a db = ok (a, db)

  abbrev pub throw : Error → Txn A
  throw e db = raise e

  abbrev pub gets : (Db → A) → Txn A
  gets f db = ok (f db, db)

  abbrev pub or_throw : Option A → Error → Txn A
  or_throw none e db = raise e
  or_throw (some a) e db = ok (a, db)

abbrev resume : {A B : Type 0} → Result (A × Db) → (A → Txn B) → Result (B × Db)
resume (ok (a, db)) f = f a db
resume (raise e) f = raise e

infixl 5 ◌>>=◌ ◌>>◌
abbrev pub ◌>>=◌ : {A B : Type 0} → Txn A → (A → Txn B) → Txn B
◌>>=◌ m f db = resume (m db) f

abbrev pub ◌>>◌ : {A B : Type 0} → Txn A → Txn B → Txn B
m >> k = m >>= λ _. k

-- A statement that returns goes on with what it returned.
pub >>=-ok :
    {A B : Type 0} (m : Txn A) (f : A → Txn B) (db : Db) {x : A} {db' : Db}
    → m db ≡ ok (x, db')
    → (m >>= f) db ≡ f x db'
>>=-ok m f db e = ap (λ r. resume r f) e

-- What two statements return came out of both, one after the other.
pub >>=-eq-ok :
    {A B : Type 0} (m : Txn A) (f : A → Txn B) (db : Db) {b : B} {db' : Db}
    → (m >>= f) db ≡ ok (b, db')
    → (a : A) × (between : Db) × (m db ≡ ok (a, between)) × (f a between ≡ ok (b, db'))
>>=-eq-ok {A} {B} m f db {b} {db'} e = split (m db) e
  where
    split :
        (r : Result (A × Db))
        → resume r f ≡ ok (b, db')
        → (a : A) × (between : Db) × (r ≡ ok (a, between)) × (f a between ≡ ok (b, db'))
    split (ok (a, between)) e = (a, between, refl, e)
    split (raise x) e = absurd (cc)

-- Two statements do not end in an error in which neither of them ends.
pub >>=-ne-raise :
    {A B : Type 0} (m : Txn A) (f : A → Txn B) (db : Db) (x : Error)
    → ¬ (m db ≡ raise x)
    → ((a : A) (between : Db) → m db ≡ ok (a, between) → ¬ (f a between ≡ raise x))
    → ¬ ((m >>= f) db ≡ raise x)
>>=-ne-raise {A} {B} m f db x first second h = split (m db) refl h
  where
    split : (r : Result (A × Db)) → m db ≡ r → resume r f ≡ raise x → ⊥
    split (raise e) q h = let same : e ≡ x = ground arith in first (rw same at q)
    split (ok (a, between)) q h = second a between q h

-- An error of two statements is one of the first, or one of the second after the first has returned.
pub >>=-eq-raise :
    {A B : Type 0} (m : Txn A) (f : A → Txn B) (db : Db) {x : Error}
    → (m >>= f) db ≡ raise x
    → (m db ≡ raise x)
      ⊎ ((a : A) × (between : Db) × (m db ≡ ok (a, between)) × (f a between ≡ raise x))
>>=-eq-raise {A} {B} m f db {x} h = split (m db) h
  where
    split :
        (r : Result (A × Db))
        → resume r f ≡ raise x
        → (r ≡ raise x)
          ⊎ ((a : A) × (between : Db) × (r ≡ ok (a, between)) × (f a between ≡ raise x))
    split (raise e) h = inl (let same : e ≡ x = ground arith in rw same refl)
    split (ok (a, between)) h = inr (a, between, refl, h)

-- A statement that raises ends what comes after it.
pub >>=-raise :
    {A B : Type 0} (m : Txn A) (f : A → Txn B) (db : Db) {x : Error}
    → m db ≡ raise x
    → (m >>= f) db ≡ raise x
>>=-raise m f db e = ap (λ r. resume r f) e

abbrev pub modify : (Db → Db) → Txn (Unit {0})
modify f db = ok (tt, f db)

abbrev pub throw_if : Bool → Error → Txn (Unit {0})
throw_if true e db = raise e
throw_if false e db = ok (tt, db)

-- What a statement of each kind has done if it returns.
pub pure-eq-ok :
    {A : Type 0} {x y : A} {db db' : Db} → pure x db ≡ ok (y, db') → (y ≡ x) × (db' ≡ db)
pure-eq-ok h = (sym (ground arith), sym (ground arith))

pub throw_if-eq-ok :
    (b : Bool) (e : Error) {u : Unit {0}} {db db' : Db}
    → throw_if b e db ≡ ok (u, db')
    → (b ≡ false) × (db' ≡ db)
throw_if-eq-ok true e h = absurd (cc)
throw_if-eq-ok false e h = (refl, sym (ground arith))

-- A check that passes goes on with the same database.
pub after-throw_if :
    {A : Type 0} (b : Bool) (e : Error) (m : Txn A) (db : Db) {x : A} {db' : Db}
    → (throw_if b e >> m) db ≡ ok (x, db')
    → (b ≡ false) × (m db ≡ ok (x, db'))
after-throw_if true e m db h = absurd (cc)
after-throw_if false e m db h = (refl, h)

-- An error behind a check that is not the check's own.
pub after-throw_if-eq-raise :
    {A : Type 0} (b : Bool) (e : Error) (m : Txn A) (db : Db) {x : Error}
    → ¬ (e ≡ x)
    → (throw_if b e >> m) db ≡ raise x
    → (b ≡ false) × (m db ≡ raise x)
after-throw_if-eq-raise true e m db other h = absurd (other (ground arith))
after-throw_if-eq-raise false e m db other h = (refl, h)

-- The error of a check says that the check has failed.
pub throw_if-eq-raise :
    (b : Bool) (e : Error) (db : Db) {x : Error} → throw_if b e db ≡ raise x → b ≡ true
throw_if-eq-raise true e db h = refl
throw_if-eq-raise false e db h = absurd (cc)

pub or_throw-eq-ok :
    {A : Type 0} (o : Option A) (e : Error) {x : A} {db db' : Db}
    → or_throw o e db ≡ ok (x, db')
    → (o ≡ some x) × (db' ≡ db)
or_throw-eq-ok none e h = absurd (cc)
or_throw-eq-ok (some y) e h = (ground arith, sym (ground arith))

-- `async with session.begin()`: a clean exit commits, an exception rolls back and goes on.
abbrev close_session : {A : Type 0} → Db → Result (A × Db) → Result A × Db
close_session db (ok (a, db')) = (ok a, db')
close_session db (raise e) = (raise e, db)

unfoldable pub run_in_session : {A : Type 0} → Txn A → Db → Result A × Db
run_in_session m db = close_session db (m db)

close_session-raise :
    {A : Type 0} (db : Db) (r : Result (A × Db)) {e : Error}
    → (close_session db r).0 ≡ raise e
    → (close_session db r).1 ≡ db
close_session-raise db (ok (a, db')) q = absurd (cc)
close_session-raise db (raise e) q = refl

-- A transaction that raises leaves the database as it was.
pub run_in_session-raise :
    {A : Type 0} (m : Txn A) (db : Db) {e : Error}
    → (run_in_session m db).0 ≡ raise e
    → (run_in_session m db).1 ≡ db
unfolding run_in_session
run_in_session-raise m db h = close_session-raise db (m db) h
