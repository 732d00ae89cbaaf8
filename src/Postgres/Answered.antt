-- ===== src/Postgres/Answered.antt =====
-- crates/crawlrs-metadata/src/store.rs: what a transaction comes to when every call is answered. A
-- statement on url_metadata comes first, and the rest leaves that table alone.
use crawlrs.Prelude.{
  ℕ, ◌≡◌, refl, ◌∙◌, List, [], ◌∷◌, Option, ℤ, inl, inr, Bool-cases, list_eq, nat_eq,
}
use crawlrs.Prelude.Map.{Map}
use crawlrs.Core.Error.{Text, Error, Result, ok, err}
use crawlrs.Core.Types.{UrlApi, UrlEntry}
use crawlrs.Postgres.Tables.{
  Database, Statement, MetadataRow, Detail, has_attempt, has_child, insert_history,
  insert_outbox_row,
}
use crawlrs.Postgres.Transactions.{
  Calls, Query, ◌>>=◌, and_then, fail, execute, transaction, begin, finish, commit,
}
use crawlrs.Postgres.Store

abbrev pub url_rows : Database → Map Text MetadataRow
url_rows db = db.tables.url_metadata

-- The piece returns `a` and leaves the rows of the URLs.
pub record Settles {A : Type 0} (a : A) (q : Query A) : Type 0 where
  pub settled :
      (db : Database)
      → ((q [] db).0 ≡ ok a) × ((q [] db).1 ≡ []) × (url_rows (q [] db).2 ≡ url_rows db)

pub insert_history-Settles :
    (id : ℕ) (run_id event : Text) (d : Option Detail) (attempt : Option Text)
    → Settles tt (execute (insert_history id run_id event d attempt))
unfolding execute insert_history
insert_history-Settles id run_id event d attempt = record {
  settled = λ db. elim (Bool-cases (has_attempt id attempt db.tables.url_history)) [
    | inl e ↦ rw (e, insert_history) (refl, refl, refl)
    | inr e ↦ rw (e, insert_history) (refl, refl, refl)
  ];
}

pub insert_outbox_row-Settles :
    (id : ℕ) (attempt url : Text) (d : ℤ) (parent : Option Text)
    → Settles tt (execute (insert_outbox_row id attempt url d parent))
unfolding execute insert_outbox_row
insert_outbox_row-Settles id attempt url d parent = record {
  settled = λ db. elim (Bool-cases (has_child id attempt url db.tables.frontier_outbox)) [
    | inl e ↦ rw (e, insert_outbox_row) (refl, refl, refl)
    | inr e ↦ rw (e, insert_outbox_row) (refl, refl, refl)
  ];
}

pub bind-Settles :
    {A B : Type 0} (a : A) (b : B) (q : Query A) (f : A → Query B)
    → Settles a q
    → Settles b (f a)
    → Settles b (q >>= f)
bind-Settles {A = A} {B = B} a b q f first next = record {
  settled =
      λ db. let (e, none_left, same) = first.settled db in by_result db (q [] db) e none_left same;
}
  where
    by_result :
        (db : Database) (o : Result A × Calls × Database)
        → o.0 ≡ ok a
        → o.1 ≡ []
        → url_rows o.2 ≡ url_rows db
        → ((and_then o f).0 ≡ ok b)
          × ((and_then o f).1 ≡ [])
          × (url_rows (and_then o f).2 ≡ url_rows db)
    by_result db (r, cs, d) e none_left same =
        let (e', none_left', same') = next.settled d in
        rw e (rw none_left (e', none_left', same' ∙ same))

module _ {Url : Type 0} (api : UrlApi Url) where
  pub insert_children-Settles :
      (id : ℕ) (attempt : Text) (children : List (UrlEntry Url))
      → Settles tt (Store.insert_children api id attempt children)
  unfolding Store.insert_children
  insert_children-Settles id attempt [] = record { settled = λ db. (refl, refl, refl) }
  insert_children-Settles id attempt (child ∷ children) =
      bind-Settles tt tt _ _ (insert_outbox_row-Settles _ _ _ _ _)
        (insert_children-Settles id attempt children)

module _ {A B : Type 0} (f : Statement A) (rest : A → Query B) (db : Database) where
  -- A transaction whose first statement returns and whose rest settles.
  pub transaction_done :
      (a : A) (b : B)
      → (f db).0 ≡ ok a
      → Settles b (rest a)
      → ((transaction (execute f >>= rest) [] db).0 ≡ ok b)
        × (url_rows (transaction (execute f >>= rest) [] db).2 ≡ url_rows (f db).1)
  unfolding transaction begin execute
  transaction_done a b e rest_settles =
      let (e', none_left, same) = rest_settles.settled (f db).1 in
      rw e (by_result (rest a [] (f db).1) e' none_left same)
    where
      by_result :
          (o : Result B × Calls × Database)
          → o.0 ≡ ok b
          → o.1 ≡ []
          → url_rows o.2 ≡ url_rows (f db).1
          → ((finish db o).0 ≡ ok b) × (url_rows (finish db o).2 ≡ url_rows (f db).1)
      by_result (r, cs, d) h none_left same =
          rw h (rw none_left (unfold finish commit in (refl, same)))

  -- A transaction that ends at the first statement's answer.
  pub transaction_failed :
      (a : A) (x : Error)
      → (f db).0 ≡ ok a
      → rest a ≡ fail x
      → ((transaction (execute f >>= rest) [] db).0 ≡ err x)
        × (url_rows (transaction (execute f >>= rest) [] db).2 ≡ url_rows db)
  unfolding transaction begin execute finish
  transaction_failed a x e h = rw e (rw h (refl, refl))
