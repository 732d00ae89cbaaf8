-- ===== src/Postgres/Constraints.antt =====
-- crates/crawlrs-metadata/migrations: what the unique constraints on url_history and frontier_outbox
-- do to a row that is inserted again.
use crawlrs.Prelude.{
  ℕ, ◌≡◌, refl, ◌∙◌, true, ◌||◌, List, [], ◌∷◌, ◌++◌, Option, some, ℤ, pos, inl, inr, Bool-cases,
  Option-cases, list_eq, nat_eq, ==_refl, eqb_iff, arith,
}
use crawlrs.Prelude.Map
use crawlrs.Core.Error.{Text, Result, ok}
use crawlrs.Postgres.Tables
use crawlrs.Postgres.Tables.{
  Database, Tables, MetadataRow, HistoryRow, OutboxRow, Detail, blob, has_attempt, has_child,
  insert_history, insert_outbox_row, update_succeeded,
}
use crawlrs.Postgres.Transactions.{Calls, Query, and_then}

abbrev pub history_of : Database → List HistoryRow
history_of db = db.tables.url_history

abbrev pub outbox_of : Database → List OutboxRow
outbox_of db = db.tables.frontier_outbox

pub and_then_done :
    {A B : Type 0} (o : Result A × Calls × Database) (f : A → Query B) (a : A)
    → o.0 ≡ ok a
    → o.1 ≡ []
    → and_then o f ≡ f a [] o.2
and_then_done (r, cs, d) f a e none_left = rw e (rw none_left refl)

-- The history of the attempt is written once.
pub insert_history-has :
    (id : ℕ) (run_id event attempt : Text) (d : Option Detail) (db : Database)
    → has_attempt id
        (some attempt)
        (history_of (insert_history id run_id event d (some attempt) db).1)
      ≡ true
unfolding insert_history
insert_history-has id run_id event attempt d db =
    elim (Bool-cases (has_attempt id (some attempt) (history_of db))) [
      | inl e ↦ rw (e, insert_history) e
      | inr e ↦
          rw (e, insert_history)
            (unfold has_attempt Tables.same_attempt in
              ground (arith, ==_refl attempt, eqb_iff id id))
    ]

pub insert_history-known :
    (id : ℕ) (run_id event attempt : Text) (d : Option Detail) (db : Database)
    → has_attempt id (some attempt) (history_of db) ≡ true
    → (insert_history id run_id event d (some attempt) db).1 ≡ db
unfolding insert_history
insert_history-known id run_id event attempt d db e = rw (e, insert_history) refl

pub insert_history-outbox :
    (id : ℕ) (run_id event attempt : Text) (d : Option Detail) (db : Database)
    → (insert_history id run_id event d (some attempt) db).1.tables.frontier_outbox
      ≡ db.tables.frontier_outbox
unfolding insert_history
insert_history-outbox id run_id event attempt d db =
    elim (Bool-cases (has_attempt id (some attempt) db.tables.url_history)) [
      | inl e ↦ rw (e, insert_history) refl
      | inr e ↦ rw (e, insert_history) refl
    ]

pub update_succeeded-rest :
    (now : ℕ) (url blob_path : Text) (content_hash : ℤ) (db : Database)
    → let o = (update_succeeded now url blob_path content_hash db).1 in
      (o.tables.url_history ≡ db.tables.url_history)
      × (o.tables.frontier_outbox ≡ db.tables.frontier_outbox)
unfolding update_succeeded
update_succeeded-rest now url blob_path content_hash db =
    elim (Option-cases (Map.get url db.tables.url_metadata)) [
      | inl e ↦ rw (e, update_succeeded) (refl, refl)
      | inr (row, e) ↦ rw (e, update_succeeded) (refl, refl)
    ]

pub update_succeeded-writes :
    (now : ℕ) (url blob_path : Text) (content_hash : ℤ) (row : MetadataRow) (db : Database)
    → Map.get url db.tables.url_metadata ≡ some row
    → (update_succeeded now url blob_path content_hash db).1.tables.url_metadata
      ≡ Map.insert url
          (record row {
            status = Tables.status_succeeded;
            retry_count = pos 0;
            blob_path = some blob_path;
            content_hash = some content_hash;
            updated_at = now;
          })
          db.tables.url_metadata
unfolding update_succeeded
update_succeeded-writes now url blob_path content_hash row db e = rw (e, update_succeeded) refl

pub has_child-append :
    (id : ℕ) (attempt url : Text) (rows more : List OutboxRow)
    → has_child id attempt url (rows ++ more)
      ≡ (has_child id attempt url rows || has_child id attempt url more)
unfolding has_child
has_child-append id attempt url [] more = refl
has_child-append id attempt url (row ∷ rows) more =
    ground (arith, has_child-append id attempt url rows more)

module _ (id : ℕ) (attempt : Text) where
  abbrev pub Has : Text → Database → Type 0
  Has url db = has_child id attempt url (outbox_of db) ≡ true

  pub insert_outbox_row-Has :
      (url : Text) (d : ℤ) (parent : Option Text) (db : Database)
      → Has url (insert_outbox_row id attempt url d parent db).1
  unfolding insert_outbox_row
  insert_outbox_row-Has url d parent db =
      elim (Bool-cases (has_child id attempt url (outbox_of db))) [
        | inl e ↦ rw (e, insert_outbox_row) e
        | inr e ↦
            rw (e, insert_outbox_row)
              (has_child-append id attempt url (outbox_of db) _
                ∙ unfold has_child in ground (arith, ==_refl attempt, ==_refl url, eqb_iff id id))
      ]

  pub insert_outbox_row-keeps :
      (url other : Text) (d : ℤ) (parent : Option Text) (db : Database)
      → Has other db
      → Has other (insert_outbox_row id attempt url d parent db).1
  unfolding insert_outbox_row
  insert_outbox_row-keeps url other d parent db h =
      elim (Bool-cases (has_child id attempt url (outbox_of db))) [
        | inl e ↦ rw (e, insert_outbox_row) h
        | inr e ↦
            rw (e, insert_outbox_row)
              (has_child-append id attempt other (outbox_of db) _ ∙ rw h refl)
      ]

  pub insert_outbox_row-rest :
      (url : Text) (d : ℤ) (parent : Option Text) (db : Database)
      → (history_of (insert_outbox_row id attempt url d parent db).1 ≡ history_of db)
        × (Has url db → outbox_of (insert_outbox_row id attempt url d parent db).1 ≡ outbox_of db)
  unfolding insert_outbox_row
  insert_outbox_row-rest url d parent db =
      elim (Bool-cases (has_child id attempt url (outbox_of db))) [
        | inl e ↦ rw (e, insert_outbox_row) (refl, λ h. refl)
        | inr e ↦ (rw (e, insert_outbox_row) refl, λ h. absurd (ground (arith, e, h)))
      ]
