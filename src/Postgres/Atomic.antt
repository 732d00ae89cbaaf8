-- ===== src/Postgres/Atomic.antt =====
-- crates/crawlrs-metadata/src/store.rs: what a call leaves when the database refuses a part of it or
-- its answer is lost.
use crawlrs.Prelude.{
  ℕ, ◌≡◌, ◌≢◌, refl, sym, ap, ◌∙◌, List, [], ◌∷◌, Option, none, some, ◌⊎◌, inl, inr, ℤ,
  Option-cases, list_eq, nat_eq,
}
use crawlrs.Prelude.Map
use crawlrs.Core.Error.{Text, Error, Result, ok, err, panic}
use crawlrs.Core.Types.{UrlApi, UrlEntry}
use crawlrs.Postgres.Tables.{Database, Statement, insert_skipped}
use crawlrs.Postgres.Transactions.{
  answered, refused, unanswered, Calls, Query, and_then, ◌>>=◌, pure, ok_or, execute, transaction,
  behind, begin, finish, commit, transaction-IsAtomic,
}
use crawlrs.Postgres.Store
use crawlrs.Postgres.Requests.{Request, attempting, succeeds, fails, dies, skips, answer}

-- A piece that returns has done what it does when every call is answered.
abbrev IsSteady : {A : Type 0} → Query A → Type 0
IsSteady {A = A} q =
    (calls : Calls) (db : Database) (a : A)
    → (q calls db).0 ≡ ok a
    → ((q [] db).0 ≡ ok a) × ((q [] db).1 ≡ []) × ((q [] db).2 ≡ (q calls db).2)

execute-IsSteady : {A : Type 0} (f : Statement A) → IsSteady (execute f)
unfolding execute
execute-IsSteady f [] db a e = (e, refl, refl)
execute-IsSteady f (answered ∷ calls) db a e = (e, refl, refl)
execute-IsSteady f (refused x ∷ calls) db a e = absurd cc
execute-IsSteady f (unanswered x ∷ calls) db a e = absurd cc

pure-IsSteady : {A : Type 0} (a : A) → IsSteady (pure a)
pure-IsSteady a calls db b e = (e, refl, refl)

ok_or-IsSteady : {A : Type 0} (x : Error) (o : Option A) → IsSteady (ok_or x o)
ok_or-IsSteady x none calls db b e = absurd cc
ok_or-IsSteady x (some a) calls db b e = (e, refl, refl)

bind-IsSteady :
    {A B : Type 0} (q : Query A) (f : A → Query B)
    → IsSteady q
    → ((a : A) → IsSteady (f a))
    → IsSteady (q >>= f)
bind-IsSteady {A = A} {B = B} q f steady steadies calls db b =
    by_result (q calls db) (q [] db) (steady calls db)
  where
    by_result :
        (o clean : Result A × Calls × Database)
        → ((a : A) → o.0 ≡ ok a → (clean.0 ≡ ok a) × (clean.1 ≡ []) × (clean.2 ≡ o.2))
        → (and_then o f).0 ≡ ok b
        → ((and_then clean f).0 ≡ ok b)
          × ((and_then clean f).1 ≡ [])
          × ((and_then clean f).2 ≡ (and_then o f).2)
    by_result (ok a, calls, db) (c, cs, d) h e =
        let (same, none_left, left) = h a refl in
        rw same (rw none_left (rw left (steadies a calls db b e)))
    by_result (err x, calls, db) clean h e = absurd cc
    by_result (panic, calls, db) clean h e = absurd cc

-- Against the same call with every part answered: it returns the same and leaves the same tables, or
-- it returns nothing and leaves the tables of before or those of the answered call.
abbrev pub AllOrNothing :
    {A : Type 0} → Database → Result A × Calls × Database → Result A × Calls × Database → Type 0
AllOrNothing {A = A} before clean o =
    ((a : A) × (o.0 ≡ ok a) × (clean.0 ≡ ok a) × (o.2.tables ≡ clean.2.tables))
    ⊎ (((a : A) → o.0 ≢ ok a) × ((o.2.tables ≡ before.tables) ⊎ (o.2.tables ≡ clean.2.tables)))

finished :
    {A : Type 0} (db : Database) (a : A) (o : Result A × Calls × Database)
    → o.0 ≡ ok a
    → o.1 ≡ []
    → ((finish db o).0 ≡ ok a) × ((finish db o).2.tables ≡ o.2.tables)
unfolding finish commit
finished db a (ok b, [], d) e h = (e, refl)
finished db a (ok b, c ∷ cs, d) e h = absurd cc
finished db a (err x, cs, d) e h = absurd cc
finished db a (panic, cs, d) e h = absurd cc

pub committed :
    {A : Type 0} (body : Query A) (db : Database) (a : A)
    → (body [] db).0 ≡ ok a
    → (body [] db).1 ≡ []
    → ((transaction body [] db).0 ≡ ok a)
      × ((transaction body [] db).2.tables ≡ (body [] db).2.tables)
unfolding transaction begin
committed body db a = finished db a (body [] db)

transaction-AllOrNothing :
    {A : Type 0} (body : Query A)
    → IsSteady body
    → (calls : Calls) (db : Database)
    → AllOrNothing db (transaction body [] db) (transaction body calls db)
transaction-AllOrNothing body steady calls db = elim (transaction-IsAtomic body calls db) [
  | inl p ↦ inr (p.0, inl p.1)
  | inr (a, returned, tables, reply) ↦
      let (same, none_left, left) = steady (behind calls) db a returned in
      let (clean_ok, clean_tables) = committed body db a same none_left in
      let agree = tables ∙ ap (λ d. d.tables) (sym left) ∙ sym clean_tables in
      elim reply [
        | inl e ↦ inl (a, e, clean_ok, agree)
        | inr (x, e) ↦ inr (λ b h. cc (e, h), inr agree)
      ]
]

execute-AllOrNothing :
    {A : Type 0} (f : Statement A) (calls : Calls) (db : Database)
    → ((a : A) × ((f db).0 ≡ ok a))
    → AllOrNothing db (execute f [] db) (execute f calls db)
unfolding execute
execute-AllOrNothing f [] db (a, e) = inl (a, e, e, refl)
execute-AllOrNothing f (answered ∷ calls) db (a, e) = inl (a, e, e, refl)
execute-AllOrNothing f (refused x ∷ calls) db (a, e) = inr (λ b. cc, inl refl)
execute-AllOrNothing f (unanswered x ∷ calls) db (a, e) = inr (λ b. cc, inr refl)

-- What a call without a count comes to as a request.
abbrev pub as_request : Result (Unit {0}) × Calls × Database → Result ℕ × Calls × Database
as_request o = and_then o (λ _. pure 0)

pub as_request-same :
    (o : Result (Unit {0}) × Calls × Database)
    → ((as_request o).2 ≡ o.2)
      × ((a : Unit {0}) → o.0 ≡ ok a → (as_request o).0 ≡ ok 0)
      × ((n : ℕ) → (as_request o).0 ≡ ok n → o.0 ≡ ok tt)
as_request-same (ok a, cs, d) = (refl, λ _ _. refl, λ _ _. refl)
as_request-same (err x, cs, d) = (refl, λ a e. cc e, λ n e. cc e)
as_request-same (panic, cs, d) = (refl, λ a e. cc e, λ n e. cc e)

counted-AllOrNothing :
    (before : Database) (clean o : Result (Unit {0}) × Calls × Database)
    → AllOrNothing before clean o
    → AllOrNothing {A = ℕ} before (as_request clean) (as_request o)
counted-AllOrNothing before clean o h =
    let (left, count, return) = as_request-same o in
    let (left', count', return') = as_request-same clean in
    elim h [
      | inl (a, e, e', same) ↦ inl (
        0,
        count a e,
        count' a e',
        ap (λ d. d.tables) left ∙ same ∙ sym (ap (λ d. d.tables) left'),
      )
      | inr (never, inl p) ↦ inr (λ n e. never tt (return n e), inl (ap (λ d. d.tables) left ∙ p))
      | inr (never, inr p) ↦ inr (
        λ n e. never tt (return n e),
        inr (ap (λ d. d.tables) left ∙ p ∙ sym (ap (λ d. d.tables) left')),
      )
    ]

insert_skipped_answers :
    (now : ℕ) (url host status run_id : Text) (d : ℤ) (parent : Option Text) (db : Database)
    → (insert_skipped now url host status run_id d parent db).0 ≡ ok tt
unfolding insert_skipped
insert_skipped_answers now url host status run_id d parent db =
    elim (Option-cases (Map.get url db.tables.url_metadata)) [
      | inl e ↦ rw (e, insert_skipped) refl
      | inr (row, e) ↦ rw (e, insert_skipped) refl
    ]

module _ {Url : Type 0} (api : UrlApi Url) where
  insert_children-IsSteady :
      (id : ℕ) (attempt : Text) (children : List (UrlEntry Url))
      → IsSteady (Store.insert_children api id attempt children)
  unfolding Store.insert_children
  insert_children-IsSteady id attempt [] = pure-IsSteady tt
  insert_children-IsSteady id attempt (child ∷ children) =
      bind-IsSteady _ _ (execute-IsSteady _) (λ _. insert_children-IsSteady id attempt children)

  -- However the database behaves, a call that changes the ledger either does nothing to its tables, or
  -- does all that it does when each of its parts is answered; if it returns, then the latter, with the
  -- same result.
  pub answer-AllOrNothing :
      (now : ℕ) (q : Request Url) (calls : Calls) (db : Database)
      → AllOrNothing db (answer api now q [] db) (answer api now q calls db)
  unfolding answer Store.mark_attempting Store.mark_succeeded Store.succeeded_body Store.mark_failed
      Store.mark_permanently_failed Store.mark_discovered_skipped
  answer-AllOrNothing now (attempting url run_id depth) calls db = counted-AllOrNothing db _ _ (
      transaction-AllOrNothing _ (bind-IsSteady _ _ (execute-IsSteady _) (λ id. execute-IsSteady _))
        calls db)
  answer-AllOrNothing now (succeeds r) calls db = counted-AllOrNothing db _ _ (
      transaction-AllOrNothing _
        (bind-IsSteady _ _ (execute-IsSteady _) (λ row.
          bind-IsSteady _ _ (ok_or-IsSteady _ row) (λ p.
            bind-IsSteady _ _ (execute-IsSteady _)
              (λ _. insert_children-IsSteady p.0 r.attempt_id r.outbound))))
        calls db)
  answer-AllOrNothing now (fails url k) calls db =
      transaction-AllOrNothing _
        (bind-IsSteady _ _ (execute-IsSteady _) (λ row.
          bind-IsSteady _ _ (ok_or-IsSteady _ row)
            (λ p. bind-IsSteady _ _ (execute-IsSteady _) (λ _. pure-IsSteady _))))
        calls db
  answer-AllOrNothing now (dies url why) calls db = counted-AllOrNothing db _ _ (
      transaction-AllOrNothing _
        (bind-IsSteady _ _ (execute-IsSteady _)
          (λ row. bind-IsSteady _ _ (ok_or-IsSteady _ row) (λ p. execute-IsSteady _)))
        calls db)
  answer-AllOrNothing now (skips url run_id depth parent why) calls db =
      counted-AllOrNothing db _ _
        (execute-AllOrNothing _ calls db (tt, insert_skipped_answers now _ _ _ run_id _ _ db))
