-- ===== src/Postgres/Redelivery.antt =====
-- crates/crawlrs-metadata/src/store.rs: an attempt that is reported as a success a second time.
use crawlrs.Prelude.{
  ℕ, List, ◌≡◌, refl, sym, ap, ◌∙◌, subst, true, [], none, some, pos, inl, inr, Option-cases,
  list_eq, nat_eq, ==_refl,
}
use crawlrs.Prelude.Map
use crawlrs.Core.Ascii.{codes}
use crawlrs.Core.Error.{Text, Result, ok, err, missing_row}
use crawlrs.Core.Types.{UrlApi, UrlEntry}
use crawlrs.Runtime.Effects.{SuccessRecord}
use crawlrs.Postgres.Tables
use crawlrs.Postgres.Tables.{
  Database, Tables, MetadataRow, HistoryRow, OutboxRow, Detail, blob, has_attempt, has_child,
  insert_history, insert_outbox_row, update_succeeded,
}
use crawlrs.Postgres.Transactions.{Calls, execute}
use crawlrs.Postgres.Atomic.{committed}
use crawlrs.Postgres.Answered.{
  url_rows, insert_history-Settles, insert_children-Settles, transaction_failed,
}
use crawlrs.Postgres.Store
use crawlrs.Postgres.Store.{mark_succeeded, succeeded_body, insert_children}
use crawlrs.Postgres.Constraints.{
  history_of, outbox_of, and_then_done, insert_history-has, insert_history-known,
  insert_history-outbox, update_succeeded-rest, update_succeeded-writes,
}
use crawlrs.Postgres.Children.{
  HasAll, insert_children-HasAll, insert_children-history, insert_children-known,
}

module _ {Url : Type 0} (api : UrlApi Url) where
  module _ (now : ℕ) (r : SuccessRecord Url) where
    key : Text
    key = api.as_str r.url

    -- What the statements on url_metadata and url_history leave.
    updated : Database → Database
    updated db = (update_succeeded now key r.blob_path (Store.as_i64 r.content_hash) db).1

    logged : MetadataRow → Database → Database
    logged row db =
        (insert_history row.id row.last_run_id (codes "succeeded") (some (blob r.blob_path))
          (some r.attempt_id) (updated db)).1

    succeeded_runs :
        (row : MetadataRow) (db : Database)
        → Map.get key (url_rows db) ≡ some row
        → succeeded_body api now r [] db
          ≡ insert_children api row.id r.attempt_id r.outbound [] (logged row db)
    unfolding succeeded_body execute logged updated key
    succeeded_runs row db e =
        let found : (update_succeeded now key r.blob_path (Store.as_i64 r.content_hash) db).0
            ≡ ok (some (row.id, row.last_run_id)) =
          unfold update_succeeded in rw (e, update_succeeded) refl in
        let (done, none_left, _) =
          (insert_history-Settles row.id row.last_run_id (codes "succeeded")
              (some (blob r.blob_path)) (some r.attempt_id)).settled
            (updated db) in
        rw found (and_then_done _ _ tt done none_left)

    -- A success that returned had a row, and left its tables.
    succeeded_tables :
        (row : MetadataRow) (db : Database)
        → Map.get key (url_rows db) ≡ some row
        → let o = insert_children api row.id r.attempt_id r.outbound [] (logged row db) in
          ((mark_succeeded api now r [] db).0 ≡ ok tt)
          × ((mark_succeeded api now r [] db).2.tables ≡ o.2.tables)
    unfolding mark_succeeded
    succeeded_tables row db e =
        let runs = succeeded_runs row db e in
        let (done, none_left, _) =
          (insert_children-Settles api row.id r.attempt_id r.outbound).settled (logged row db) in
        let (returned, tables) =
          committed (succeeded_body api now r) db tt (ap (λ o. o.0) runs ∙ done)
            (ap (λ o. o.1) runs ∙ none_left) in
        (returned, tables ∙ ap (λ o. o.2.tables) runs)

    not_returned :
        (o : Result (Unit {0}) × Calls × Database) → o.0 ≡ err (missing_row key) → o.0 ≡ ok tt → ⊥
    not_returned o failed e = cc

    succeeded_row :
        (db : Database)
        → (mark_succeeded api now r [] db).0 ≡ ok tt
        → (row : MetadataRow) × (Map.get key (url_rows db) ≡ some row)
    unfolding mark_succeeded succeeded_body key
    succeeded_row db e = elim (Option-cases (Map.get key (url_rows db))) [
      | inr found ↦ found
      | inl z ↦
          let (failed, _) =
            transaction_failed (update_succeeded now key r.blob_path (Store.as_i64 r.content_hash))
              _ db none (missing_row key) (unfold update_succeeded in rw (z, update_succeeded) refl)
              refl in
          absurd (not_returned (mark_succeeded api now r [] db) failed e)
    ]

    updated-rest :
        (db : Database)
        → (history_of (updated db) ≡ history_of db) × (outbox_of (updated db) ≡ outbox_of db)
    unfolding updated
    updated-rest db = update_succeeded-rest now key r.blob_path (Store.as_i64 r.content_hash) db

    logged-outbox : (row : MetadataRow) (db : Database) → outbox_of (logged row db) ≡ outbox_of db
    unfolding logged
    logged-outbox row db =
        insert_history-outbox row.id row.last_run_id (codes "succeeded") r.attempt_id
          (some (blob r.blob_path)) (updated db)
        ∙ (updated-rest db).1

    logged-known :
        (row : MetadataRow) (db : Database)
        → has_attempt row.id (some r.attempt_id) (history_of db) ≡ true
        → history_of (logged row db) ≡ history_of db
    unfolding logged
    logged-known row db h =
        let (same, _) = updated-rest db in
        ap history_of (
          insert_history-known row.id row.last_run_id (codes "succeeded") r.attempt_id
            (some (blob r.blob_path)) (updated db)
            (subst (λ hs. has_attempt row.id (some r.attempt_id) hs ≡ true) (sym same) h))
        ∙ same

    logged-has :
        (row : MetadataRow) (db : Database)
        → has_attempt row.id (some r.attempt_id) (history_of (logged row db)) ≡ true
    unfolding logged
    logged-has row db =
        insert_history-has row.id row.last_run_id (codes "succeeded") r.attempt_id _ _

    -- The row of a URL keeps its id.
    kept_row :
        (row : MetadataRow) (db : Database)
        → Map.get key (url_rows db) ≡ some row
        → (row' : MetadataRow) × (row'.id ≡ row.id)
          × (Map.get key
                (url_rows (insert_children api row.id r.attempt_id r.outbound [] (logged row db)).2)
              ≡ some row')
    unfolding logged updated update_succeeded execute
    kept_row row db e =
        let (_, _, after_children) =
          (insert_children-Settles api row.id r.attempt_id r.outbound).settled (logged row db) in
        let (_, _, after_history) =
          (insert_history-Settles row.id row.last_run_id (codes "succeeded")
              (some (blob r.blob_path)) (some r.attempt_id)).settled
            (updated db) in
        let row' : MetadataRow = record row {
          status = Tables.status_succeeded;
          retry_count = pos 0;
          blob_path = some r.blob_path;
          content_hash = some (Store.as_i64 r.content_hash);
          updated_at = now;
        } in
        let written : url_rows (updated db) ≡ Map.insert key row' (url_rows db) =
          update_succeeded-writes now key r.blob_path (Store.as_i64 r.content_hash) row db e in
        (
          row',
          refl,
          ap (Map.get key) (after_children ∙ after_history ∙ written)
              ∙ Map.get-insert key key row' (url_rows db)
              ∙ rw (==_refl key) refl,
        )

  -- The ledger has the row of a URL with an id, the history of an attempt and the rows of its links.
  pub record Remembers (url : Text) (id : ℕ) (attempt : Text) (links : List (UrlEntry Url))
      (t : Tables) : Type 0 where
    pub known : (row : MetadataRow) × (row.id ≡ id) × (Map.get url t.url_metadata ≡ some row)
    pub logged : has_attempt id (some attempt) t.url_history ≡ true
    pub listed : HasAll api id attempt links t.frontier_outbox

  -- What a success that returned leaves.
  pub mark_succeeded-Remembers :
      (now : ℕ) (r : SuccessRecord Url) (db : Database)
      → (mark_succeeded api now r [] db).0 ≡ ok tt
      → (id : ℕ) × Remembers
          (api.as_str r.url)
          id
          r.attempt_id
          r.outbound
          (mark_succeeded api now r [] db).2.tables
  unfolding key
  mark_succeeded-Remembers now r db returned =
      let (row, found) = succeeded_row now r db returned in
      let left = insert_children api row.id r.attempt_id r.outbound [] (logged now r row db) in
      let tables = (succeeded_tables now r row db found).1 in
      let (row', same, kept) = kept_row now r row db found in
      (
        row.id,
        record {
          known = (row', same, ap (λ t. Map.get (key now r) t.url_metadata) tables ∙ kept);
          logged =
              ap (λ t. has_attempt row.id (some r.attempt_id) t.url_history) tables
              ∙ ap (has_attempt row.id (some r.attempt_id))
                  (insert_children-history api row.id r.attempt_id r.outbound (logged now r row db))
              ∙ logged-has now r row db;
          listed =
              subst (λ t. HasAll api row.id r.attempt_id r.outbound t.frontier_outbox) (sym tables)
                (insert_children-HasAll api row.id r.attempt_id r.outbound (logged now r row db));
        },
      )

  -- A success that is remembered is accepted and adds no row to url_history or frontier_outbox.
  pub remembered_success :
      (now id : ℕ) (r : SuccessRecord Url) (db : Database)
      → Remembers (api.as_str r.url) id r.attempt_id r.outbound db.tables
      → let again = mark_succeeded api now r [] db in
        (again.0 ≡ ok tt)
        × (again.2.tables.url_history ≡ db.tables.url_history)
        × (again.2.tables.frontier_outbox ≡ db.tables.frontier_outbox)
  unfolding key
  remembered_success now id r db m =
      let (row, same, found) = m.known in
      let (done, final) = succeeded_tables now r row db found in
      let has =
        subst (λ i. has_attempt i (some r.attempt_id) (history_of db) ≡ true) (sym same) m.logged in
      let all =
        subst (λ i. HasAll api i r.attempt_id r.outbound (outbox_of db)) (sym same) m.listed in
      let same_outbox = logged-outbox now r row db in
      (
        done,
        ap (λ t. t.url_history) final
            ∙ insert_children-history api row.id r.attempt_id r.outbound (logged now r row db)
            ∙ logged-known now r row db has,
        ap (λ t. t.frontier_outbox) final
            ∙ insert_children-known api row.id r.attempt_id r.outbound (logged now r row db)
                (subst (HasAll api row.id r.attempt_id r.outbound) (sym same_outbox) all)
            ∙ same_outbox,
      )
