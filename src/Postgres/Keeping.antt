-- ===== src/Postgres/Keeping.antt =====
-- crates/crawlrs-metadata/src/store.rs: what the calls of the ledger keep of the tables, whatever the
-- database answers.
use crawlrs.Prelude.{
  ℕ, ◌≡◌, refl, sym, ap, ◌∙◌, Bool, true, ◌||◌, List, [], ◌∷◌, ◌++◌, Option, none, some, ℤ,
  Bool-cases, Option-cases, inl, inr, list_eq, nat_eq, ◌==◌, arith,
}
use crawlrs.Prelude.Map
use crawlrs.Core.Error.{Text, Error, Result, ok, err, panic}
use crawlrs.Core.Types.{UrlApi, UrlEntry}
use crawlrs.Fakes.Accounting.{same_text}
use crawlrs.Postgres.Tables.{
  Database, Tables, Statement, MetadataRow, HistoryRow, OutboxRow, Detail, has_attempt, has_child,
  int_suc, insert_history, insert_outbox_row, insert_skipped, upsert_attempting, update_succeeded,
  update_failed, update_permanently_failed,
}
use crawlrs.Postgres.Transactions.{
  Calls, Query, answered, refused, unanswered, and_then, ◌>>=◌, ok_or, execute, transaction, commit,
  finish, begin,
}
use crawlrs.Postgres.Store
use crawlrs.Postgres.Store.{succeeded_body, insert_children}
use crawlrs.Postgres.Constraints.{has_child-append}
use crawlrs.Postgres.Children.{HasAll}
use crawlrs.Postgres.Redelivery.{Remembers}

module _ (P : Tables → Type 0) where
  abbrev pub Maintains : {A : Type 0} → Query A → Type 0
  Maintains q = (calls : Calls) (db : Database) → P db.tables → P (q calls db).2.tables

  abbrev pub Writes : {A : Type 0} → Statement A → Type 0
  Writes f = (db : Database) → P db.tables → P (f db).1.tables

  pub execute_keeps : {A : Type 0} (f : Statement A) → Writes f → Maintains (execute f)
  unfolding execute
  execute_keeps f w [] db h = w db h
  execute_keeps f w (answered ∷ calls) db h = w db h
  execute_keeps f w (refused x ∷ calls) db h = h
  execute_keeps f w (unanswered x ∷ calls) db h = w db h

  pub ok_or_keeps : {A : Type 0} (x : Error) (o : Option A) → Maintains (ok_or x o)
  ok_or_keeps x none calls db h = h
  ok_or_keeps x (some a) calls db h = h

  pub bind_keeps :
      {A B : Type 0} (q : Query A) (f : A → Query B)
      → Maintains q
      → ((a : A) → Maintains (f a))
      → Maintains (q >>= f)
  bind_keeps {A = A} q f keep keeps calls db h = by_result (q calls db) (keep calls db h)
    where
      by_result : (o : Result A × Calls × Database) → P o.2.tables → P (and_then o f).2.tables
      by_result (ok a, cs, d) k = keeps a cs d k
      by_result (err x, cs, d) k = k
      by_result (panic, cs, d) k = k

  finish_keeps :
      {A : Type 0} (before : Database) (o : Result A × Calls × Database)
      → P before.tables
      → P o.2.tables
      → P (finish before o).2.tables
  unfolding finish commit
  finish_keeps before (ok a, [], db) h k = k
  finish_keeps before (ok a, answered ∷ calls, db) h k = k
  finish_keeps before (ok a, refused x ∷ calls, db) h k = h
  finish_keeps before (ok a, unanswered x ∷ calls, db) h k = k
  finish_keeps before (err x, calls, db) h k = h
  finish_keeps before (panic, calls, db) h k = h

  pub transaction_keeps :
      {A : Type 0} (body : Query A) → Maintains body → Maintains (transaction body)
  unfolding transaction begin
  transaction_keeps body keep [] db h = finish_keeps db (body [] db) h (keep [] db h)
  transaction_keeps body keep (answered ∷ calls) db h =
      finish_keeps db (body calls db) h (keep calls db h)
  transaction_keeps body keep (refused x ∷ calls) db h = h
  transaction_keeps body keep (unanswered x ∷ calls) db h = h

module _ {Url : Type 0} (api : UrlApi Url) (url : Text) (id : ℕ) (attempt : Text)
    (links : List (UrlEntry Url)) where
  abbrev pub Kept : Tables → Type 0
  Kept = Remembers api url id attempt links

  write-Kept :
      (other : Text) (row : MetadataRow) (t : Tables)
      → ((old : MetadataRow) → Map.get other t.url_metadata ≡ some old → row.id ≡ old.id)
      → Kept t
      → Kept (record t { url_metadata = Map.insert other row t.url_metadata })
  write-Kept other row t same m = record {
    known = elim (Bool-cases (other == url)) [
      | inl here ↦ (
        row,
        same m.known.0
              (ap (λ u. Map.get u t.url_metadata) ((same_text other url).0 here) ∙ m.known.2)
            ∙ m.known.1,
        Map.get-insert other url row t.url_metadata ∙ rw here refl,
      )
      | inr away ↦
          (m.known.0, m.known.1, Map.get-insert other url row t.url_metadata ∙ rw away m.known.2)
    ];
    logged = m.logged;
    listed = m.listed;
  }

  log-Kept :
      (h : HistoryRow) (t : Tables) → Kept t → Kept (record t { url_history = h ∷ t.url_history })
  unfolding has_attempt
  log-Kept h t m = record { known = m.known; logged = or_right _ _ m.logged; listed = m.listed }
    where
      or_right : (a b : Bool) → b ≡ true → (a || b) ≡ true
      or_right a b e = ground arith

  HasAll-append :
      (children : List (UrlEntry Url)) (rows more : List OutboxRow)
      → HasAll api id attempt children rows
      → HasAll api id attempt children (rows ++ more)
  HasAll-append [] rows more h = tt
  HasAll-append (child ∷ children) rows more h = (
    has_child-append id attempt (api.as_str child.url) rows more ∙ rw h.0 refl,
    HasAll-append children rows more h.1,
  )

  list-Kept :
      (more : List OutboxRow) (t : Tables)
      → Kept t
      → Kept (record t { frontier_outbox = t.frontier_outbox ++ more })
  list-Kept more t m = record {
    known = m.known;
    logged = m.logged;
    listed = HasAll-append links t.frontier_outbox more m.listed;
  }

  pub insert_history-Kept :
      (i : ℕ) (run_id event : Text) (d : Option Detail) (a : Option Text)
      → Writes Kept (insert_history i run_id event d a)
  unfolding insert_history
  insert_history-Kept i run_id event d a db m =
      elim (Bool-cases (has_attempt i a db.tables.url_history)) [
        | inl e ↦ rw (e, insert_history) m
        | inr e ↦ rw (e, insert_history) (log-Kept _ db.tables m)
      ]

  insert_outbox_row-Kept :
      (i : ℕ) (a u : Text) (depth : ℤ) (parent : Option Text)
      → Writes Kept (insert_outbox_row i a u depth parent)
  unfolding insert_outbox_row
  insert_outbox_row-Kept i a u depth parent db m =
      elim (Bool-cases (has_child i a u db.tables.frontier_outbox)) [
        | inl e ↦ rw (e, insert_outbox_row) m
        | inr e ↦ rw (e, insert_outbox_row) (list-Kept _ db.tables m)
      ]

  same_id : {a b : MetadataRow} (o : Option MetadataRow) → o ≡ some a → o ≡ some b → a.id ≡ b.id
  same_id {a} {b} o e f =
      let same : some a ≡ some b = sym e ∙ f in
      let rows : a ≡ b = cc in ap (λ (r : MetadataRow). r.id) rows

  pub upsert_attempting-Kept :
      (now : ℕ) (u host run_id : Text) (depth : ℤ)
      → Writes Kept (upsert_attempting now u host run_id depth)
  unfolding upsert_attempting
  upsert_attempting-Kept now u host run_id depth db m =
      elim (Option-cases (Map.get u db.tables.url_metadata)) [
        | inl e ↦
            rw (e, upsert_attempting)
              (write-Kept u _ db.tables (λ old found. absurd (ground (arith, e, found))) m)
        | inr (row, e) ↦
            rw (e, upsert_attempting) (write-Kept u _ db.tables (λ old found. same_id _ e found) m)
      ]

  pub update_succeeded-Kept :
      (now : ℕ) (u blob_path : Text) (hash : ℤ)
      → Writes Kept (update_succeeded now u blob_path hash)
  unfolding update_succeeded
  update_succeeded-Kept now u blob_path hash db m =
      elim (Option-cases (Map.get u db.tables.url_metadata)) [
        | inl e ↦ rw (e, update_succeeded) m
        | inr (row, e) ↦
            rw (e, update_succeeded) (write-Kept u _ db.tables (λ old found. same_id _ e found) m)
      ]

  pub update_failed-Kept : (now : ℕ) (u : Text) → Writes Kept (update_failed now u)
  unfolding update_failed
  update_failed-Kept now u db m = elim (Option-cases (Map.get u db.tables.url_metadata)) [
    | inl e ↦ rw (e, update_failed) m
    | inr (row, e) ↦ elim (Option-cases (int_suc row.retry_count)) [
      | inl full ↦ rw (e, update_failed) (rw full m)
      | inr (n, room) ↦
          rw (e, update_failed)
            (rw room (write-Kept u _ db.tables (λ old found. same_id _ e found) m))
    ]
  ]

  pub update_permanently_failed-Kept :
      (now : ℕ) (u : Text) → Writes Kept (update_permanently_failed now u)
  unfolding update_permanently_failed
  update_permanently_failed-Kept now u db m =
      elim (Option-cases (Map.get u db.tables.url_metadata)) [
        | inl e ↦ rw (e, update_permanently_failed) m
        | inr (row, e) ↦
            rw (e, update_permanently_failed)
              (write-Kept u _ db.tables (λ old found. same_id _ e found) m)
      ]

  pub insert_skipped-Kept :
      (now : ℕ) (u host status run_id : Text) (depth : ℤ) (parent : Option Text)
      → Writes Kept (insert_skipped now u host status run_id depth parent)
  unfolding insert_skipped
  insert_skipped-Kept now u host status run_id depth parent db m =
      elim (Option-cases (Map.get u db.tables.url_metadata)) [
        | inl e ↦
            rw (e, insert_skipped)
              (write-Kept u _ db.tables (λ old found. absurd (ground (arith, e, found))) m)
        | inr (row, e) ↦ rw (e, insert_skipped) m
      ]

  pub insert_children-Kept :
      (i : ℕ) (a : Text) (children : List (UrlEntry Url))
      → Maintains Kept (insert_children api i a children)
  unfolding insert_children
  insert_children-Kept i a [] = λ calls db m. m
  insert_children-Kept i a (child ∷ children) =
      let row =
        insert_outbox_row i a (api.as_str child.url) (Store.as_i32 child.depth)
          (Store.parent_text api child.discovered_from) in
      bind_keeps Kept (execute row) (λ _. insert_children api i a children)
        (execute_keeps Kept row (
          insert_outbox_row-Kept i a (api.as_str child.url) (Store.as_i32 child.depth)
            (Store.parent_text api child.discovered_from)))
        (λ _. insert_children-Kept i a children)
