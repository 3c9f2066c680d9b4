-- ===== src/Db/Inversion.antt =====
-- What the success of a transaction says of its first statement and of the rest, and how one goes on.
use data_trains.Base.{Bool, true, false, Option, none, some, ◌≡◌, refl, sym, subst}
use data_trains.Domain.Errors.{Error, Result, ok, err}
use data_trains.Db.Rows.{Db}
use data_trains.Db.Statements.{Tx, ◌>>=◌, ◌>>◌, fail_if, row, lift}

module _ {A B : Type 0} (db : Db) (b : B × Db) where
  pub bind-ok :
      (m : Tx A) (f : A → Tx B)
      → (m >>= f) db ≡ ok b
      → (a : A × Db) × (m db ≡ ok a) × (f a.0 a.1 ≡ ok b)
  bind-ok m f = go (m db)
    where
      go :
          (r : Result (A × Db))
          → elim r [ ok (a, db') ↦ f a db' | err e ↦ err e ] ≡ ok b
          → (a : A × Db) × (r ≡ ok a) × (f a.0 a.1 ≡ ok b)
      go (ok a) h = (a, refl, h)
      go (err e) h = cc

  pub row-ok :
      (q : Db → Option A) (e : Error) (f : A → Tx B)
      → (row q e >>= f) db ≡ ok b
      → (a : A) × (q db ≡ some a) × (f a db ≡ ok b)
  row-ok q e f = go (q db)
    where
      go :
          (o : Option A)
          → elim (elim o as (λ _. Result (A × Db)) [ none ↦ err e | some a ↦ ok (a, db) ]) [
            | ok (a, db') ↦ f a db'
            | err e ↦ err e
          ]
            ≡ ok b
          → (a : A) × (o ≡ some a) × (f a db ≡ ok b)
      go none h = cc
      go (some a) h = (a, refl, h)

  pub lift-ok :
      (r : Result A) (f : A → Tx B)
      → (lift r >>= f) db ≡ ok b
      → (a : A) × (r ≡ ok a) × (f a db ≡ ok b)
  lift-ok (ok a) f h = (a, refl, h)
  lift-ok (err e) f h = cc

module _ {B : Type 0} (db : Db) (b : B × Db) where
  pub fail_if-ok :
      (test : Bool) (e : Error) (k : Tx B)
      → (fail_if test e >> k) db ≡ ok b
      → (test ≡ false) × (k db ≡ ok b)
  fail_if-ok true e k h = cc
  fail_if-ok false e k h = (refl, h)

  -- A query that finds its row.
  pub row-some :
      {A : Type 0} (q : Db → Option A) (e : Error) (f : A → Tx B) (a : A)
      → q db ≡ some a
      → f a db ≡ ok b
      → (row q e >>= f) db ≡ ok b
  row-some {A} q e f a h k =
      subst
        (λ o.
          elim (elim o as (λ _. Result (A × Db)) [ none ↦ err e | some x ↦ ok (x, db) ])
            as (λ _. Result (B × Db)) [ ok (x, db') ↦ f x db' | err x ↦ err x ]
          ≡ ok b)
        (sym h) k
