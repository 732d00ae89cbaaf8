-- ===== src/Postgres/Transactions.antt =====
-- crates/crawlrs-metadata/src/store.rs: the connection to the database. The server is an environment
-- that decides for each call whether it is answered, is refused, or is run with the answer lost.
use crawlrs.Prelude.{◌≡◌, ◌≢◌, refl, List, [], ◌∷◌, Option, none, some, ◌⊎◌, inl, inr}
use crawlrs.Core.Error.{Text, Error, Result, ok, err, panic, sqlx}
use crawlrs.Postgres.Tables.{Database, Statement}

pub data Call : Type 0 where
  answered : Call
  refused : Text → Call
  unanswered : Text → Call

-- The calls that are still to come; behind the end of the list each is answered.
abbrev pub Calls : Type 0
Calls = List Call

-- A piece of a method: its result, and the calls and the database behind it.
abbrev pub Query : Type 0 → Type 0
Query A = Calls → Database → Result A × Calls × Database

abbrev pub and_then :
    {A B : Type 0} → Result A × Calls × Database → (A → Query B) → Result B × Calls × Database
and_then (ok a, calls, db) f = f a calls db
and_then (err e, calls, db) f = (err e, calls, db)
and_then (panic, calls, db) f = (panic, calls, db)

infixl 5 ◌>>=◌
abbrev pub ◌>>=◌ : {A B : Type 0} → Query A → (A → Query B) → Query B
◌>>=◌ q f calls db = and_then (q calls db) f

abbrev pub pure : {A : Type 0} → A → Query A
pure a calls db = (ok a, calls, db)

-- A result that needs no call.
abbrev pub lift : {A : Type 0} → Result A → Query A
lift r calls db = (r, calls, db)

abbrev pub fail : {A : Type 0} → Error → Query A
fail e calls db = (err e, calls, db)

-- `row.ok_or_else(..)?`
abbrev pub ok_or : {A : Type 0} → Error → Option A → Query A
ok_or e none = fail e
ok_or e (some a) = pure a

-- A statement that is sent and whose error is bubbled up.
unfoldable pub execute : {A : Type 0} → Statement A → Query A
execute f [] db = ((f db).0, [], (f db).1)
execute f (answered ∷ calls) db = ((f db).0, calls, (f db).1)
execute f (refused e ∷ calls) db = (err (sqlx e), calls, db)
execute f (unanswered e ∷ calls) db = (err (sqlx e), calls, (f db).1)

-- What a rollback leaves: the tables of before.
abbrev pub rollback : Database → Database → Database
rollback before db = record db { tables = before.tables }

-- tx.commit(), after a body that returned `a`.
unfoldable pub commit : {A : Type 0} → A → Database → Query A
commit a before [] db = (ok a, [], db)
commit a before (answered ∷ calls) db = (ok a, calls, db)
commit a before (refused e ∷ calls) db = (err (sqlx e), calls, rollback before db)
commit a before (unanswered e ∷ calls) db = (err (sqlx e), calls, db)

-- The commit behind a body; a transaction that is dropped before is rolled back.
unfoldable pub finish :
    {A : Type 0} → Database → Result A × Calls × Database → Result A × Calls × Database
unfolding commit
finish before (ok a, calls, db) = commit a before calls db
finish before (err e, calls, db) = (err e, calls, rollback before db)
finish before (panic, calls, db) = (panic, calls, rollback before db)

-- pool.begin(), and behind it a body and what becomes of it.
unfoldable pub begin :
    {A B : Type 0}
    → (Database → Result B × Calls × Database → Result A × Calls × Database)
    → Query B
    → Query A
begin end body [] db = end db (body [] db)
begin end body (answered ∷ calls) db = end db (body calls db)
begin end body (refused e ∷ calls) db = (err (sqlx e), calls, db)
begin end body (unanswered e ∷ calls) db = (err (sqlx e), calls, db)

unfoldable pub transaction : {A : Type 0} → Query A → Query A
unfolding begin finish
transaction body = begin finish body

-- The calls of the body: those behind the one that begins the transaction.
abbrev pub behind : Calls → Calls
behind [] = []
behind (c ∷ calls) = calls

module _ {A : Type 0} where
  -- Either the tables are those of before and there is no result, or the body ran to its end and
  -- the tables are the ones that it left; then the result is the body's, or its answer was lost.
  abbrev pub IsAtomic :
      Database → Result A × Calls × Database → Result A × Calls × Database → Type 0
  IsAtomic before body o =
      ((((a : A) → o.0 ≢ ok a) × (o.2.tables ≡ before.tables))
        ⊎ ((a : A) × (body.0 ≡ ok a)
            × (o.2.tables ≡ body.2.tables)
            × ((o.0 ≡ ok a) ⊎ ((e : Text) × (o.0 ≡ err (sqlx e))))))

  commit-IsAtomic :
      (a : A) (before : Database) (body : Result A × Calls × Database) (calls : Calls)
      → body.0 ≡ ok a
      → IsAtomic before body (commit a before calls body.2)
  unfolding commit
  commit-IsAtomic a before body [] e = inr (a, e, refl, inl refl)
  commit-IsAtomic a before body (answered ∷ calls) e = inr (a, e, refl, inl refl)
  commit-IsAtomic a before body (refused x ∷ calls) e = inl (λ b. cc, refl)
  commit-IsAtomic a before body (unanswered x ∷ calls) e = inr (a, e, refl, inr (x, refl))

  finish-IsAtomic :
      (before : Database) (body : Result A × Calls × Database)
      → IsAtomic before body (finish before body)
  unfolding finish
  finish-IsAtomic before (ok a, calls, db) = commit-IsAtomic a before (ok a, calls, db) calls refl
  finish-IsAtomic before (err e, calls, db) = inl (λ b. cc, refl)
  finish-IsAtomic before (panic, calls, db) = inl (λ b. cc, refl)

  pub transaction-IsAtomic :
      (body : Query A) (calls : Calls) (db : Database)
      → IsAtomic db (body (behind calls) db) (transaction body calls db)
  unfolding transaction
  transaction-IsAtomic body [] db = finish-IsAtomic db (body [] db)
  transaction-IsAtomic body (answered ∷ calls) db = finish-IsAtomic db (body calls db)
  transaction-IsAtomic body (refused e ∷ calls) db = inl (λ b. cc, refl)
  transaction-IsAtomic body (unanswered e ∷ calls) db = inl (λ b. cc, refl)
