-- ===== src/Postgres/Again.antt =====
-- crates/crawlrs-metadata/src/store.rs: an attempt that is reported as a success again, after other calls
-- of the ledger.
use crawlrs.Prelude.{ℕ, ◌^◌, to_unsigned, ◌≡◌, List, [], ◌∷◌, Option, none, some}
use crawlrs.Core.Ascii.{codes}
use crawlrs.Core.Error.{Text, Error, Result, ok, missing_row, FailureKind}
use crawlrs.Core.Types.{UrlApi, UrlEntry, SkipReason}
use crawlrs.Runtime.Effects.{SuccessRecord, Reason}
use crawlrs.Postgres.Tables.{
  Database, Tables, Detail, blob, kind, reason, insert_history, upsert_attempting, update_succeeded,
  update_failed, update_permanently_failed, skip_status_str,
}
use crawlrs.Postgres.Transactions.{Calls, Query, pure, ok_or, execute, transaction, ◌>>=◌}
use crawlrs.Postgres.Store
use crawlrs.Postgres.Store.{mark_succeeded, succeeded_body, insert_children}
use crawlrs.Postgres.Requests.{Request, attempting, succeeds, fails, dies, skips, counted, answer}
use crawlrs.Postgres.Redelivery.{Remembers, mark_succeeded-Remembers, remembered_success}
use crawlrs.Postgres.Keeping.{
  Maintains, Kept, execute_keeps, ok_or_keeps, bind_keeps, transaction_keeps, insert_history-Kept,
  upsert_attempting-Kept, update_succeeded-Kept, update_failed-Kept, update_permanently_failed-Kept,
  insert_skipped-Kept, insert_children-Kept,
}

module _ {Url : Type 0} (api : UrlApi Url) (key : Text) (id : ℕ) (attempt : Text)
    (links : List (UrlEntry Url)) where
  abbrev Safe : {A : Type 0} → Query A → Type 0
  Safe q = Maintains (Kept api key id attempt links) q

  -- A statement on url_metadata, then a row of url_history that is of its row.
  row_then_log :
      {A B : Type 0} (f : Database → Result (Option A) × Database) (missing : Error)
      (rest : A → Query B)
      → ((db : Database)
          → Kept api key id attempt links db.tables
          → Kept api key id attempt links (f db).1.tables)
      → ((a : A) → Safe (rest a))
      → Safe (transaction (execute f >>= λ row. ok_or missing row >>= rest))
  row_then_log f missing rest writes safe =
      transaction_keeps K (execute f >>= λ row. ok_or missing row >>= rest) (
        bind_keeps K (execute f) (λ row. ok_or missing row >>= rest) (execute_keeps K f writes)
          (λ row. bind_keeps K (ok_or missing row) rest (ok_or_keeps K missing row) safe))
    where
      K : Tables → Type 0
      K = Kept api key id attempt links

  log_keeps :
      (i : ℕ) (run_id event : Text) (d : Option Detail) (a : Option Text)
      → Safe (execute (insert_history i run_id event d a))
  log_keeps i run_id event d a =
      execute_keeps (Kept api key id attempt links) (insert_history i run_id event d a)
        (insert_history-Kept api key id attempt links i run_id event d a)

  attempting-Safe :
      (now : ℕ) (url : Url) (run_id : Text) (depth : ℕ)
      → Safe (Store.mark_attempting api now url run_id depth)
  unfolding Store.mark_attempting
  attempting-Safe now url run_id depth =
      let upsert =
        upsert_attempting now (api.as_str url) (Store.host_or_unknown api url) run_id
          (Store.as_i32 depth) in
      let log = λ (i : ℕ). execute (insert_history i run_id (codes "attempted") none none) in
      transaction_keeps (Kept api key id attempt links) (execute upsert >>= log) (
        bind_keeps (Kept api key id attempt links) (execute upsert) log
          (execute_keeps (Kept api key id attempt links) upsert (
            upsert_attempting-Kept api key id attempt links now (api.as_str url)
              (Store.host_or_unknown api url) run_id (Store.as_i32 depth)))
          (λ i. log_keeps i run_id (codes "attempted") none none))

  succeeds-Safe : (now : ℕ) (r : SuccessRecord Url) → Safe (mark_succeeded api now r)
  unfolding mark_succeeded succeeded_body
  succeeds-Safe now r =
      row_then_log
        (update_succeeded now (api.as_str r.url) r.blob_path (Store.as_i64 r.content_hash))
        (missing_row (api.as_str r.url))
        (λ (i, run_id).
          execute (
            insert_history i run_id (codes "succeeded") (some (blob r.blob_path))
              (some r.attempt_id))
          >>= λ _. insert_children api i r.attempt_id r.outbound)
        (update_succeeded-Kept api key id attempt links now (api.as_str r.url) r.blob_path
          (Store.as_i64 r.content_hash))
        (λ (i, run_id).
          bind_keeps (Kept api key id attempt links)
            (execute (
              insert_history i run_id (codes "succeeded") (some (blob r.blob_path))
                (some r.attempt_id)))
            (λ _. insert_children api i r.attempt_id r.outbound)
            (log_keeps i run_id (codes "succeeded") (some (blob r.blob_path)) (some r.attempt_id))
            (λ _. insert_children-Kept api key id attempt links i r.attempt_id r.outbound))

  fails-Safe : (now : ℕ) (url : Url) (k : FailureKind) → Safe (Store.mark_failed api now url k)
  unfolding Store.mark_failed
  fails-Safe now url k =
      row_then_log (update_failed now (api.as_str url)) (missing_row (api.as_str url))
        (λ (i, run_id, retries).
          execute (insert_history i run_id (codes "failed") (some (kind k)) none) >>= λ _.
          pure (to_unsigned (2 ^ 31) retries))
        (update_failed-Kept api key id attempt links now (api.as_str url))
        (λ (i, run_id, retries).
          bind_keeps (Kept api key id attempt links)
            (execute (insert_history i run_id (codes "failed") (some (kind k)) none))
            (λ _. pure (to_unsigned (2 ^ 31) retries))
            (log_keeps i run_id (codes "failed") (some (kind k)) none) (λ _ calls db m. m))

  dies-Safe :
      (now : ℕ) (url : Url) (why : Reason) → Safe (Store.mark_permanently_failed api now url why)
  unfolding Store.mark_permanently_failed
  dies-Safe now url why =
      row_then_log (update_permanently_failed now (api.as_str url)) (missing_row (api.as_str url))
        (λ (i, run_id).
          execute (insert_history i run_id (codes "permanently_failed") (some (reason why)) none))
        (update_permanently_failed-Kept api key id attempt links now (api.as_str url))
        (λ (i, run_id). log_keeps i run_id (codes "permanently_failed") (some (reason why)) none)

  skips-Safe :
      (now : ℕ) (url : Url) (run_id : Text) (depth : ℕ) (parent : Option Url) (why : SkipReason)
      → Safe (Store.mark_discovered_skipped api now url run_id depth parent why)
  unfolding Store.mark_discovered_skipped
  skips-Safe now url run_id depth parent why = execute_keeps (Kept api key id attempt links) _ (
      insert_skipped-Kept api key id attempt links now (api.as_str url)
        (Store.host_or_unknown api url) (skip_status_str why) run_id (Store.as_i32 depth)
        (Store.parent_text api parent))

  counted-Safe : (q : Query (Unit {0})) → Safe q → Safe (counted q)
  counted-Safe q safe =
      bind_keeps (Kept api key id attempt links) q (λ _. pure 0) safe (λ _ calls db m. m)

  answer-Safe : (now : ℕ) (q : Request Url) → Safe (answer api now q)
  unfolding answer
  answer-Safe now (attempting url run_id depth) =
      counted-Safe (Store.mark_attempting api now url run_id depth)
        (attempting-Safe now url run_id depth)
  answer-Safe now (succeeds r) = counted-Safe (mark_succeeded api now r) (succeeds-Safe now r)
  answer-Safe now (fails url k) = fails-Safe now url k
  answer-Safe now (dies url why) =
      counted-Safe (Store.mark_permanently_failed api now url why) (dies-Safe now url why)
  answer-Safe now (skips url run_id depth parent why) =
      counted-Safe (Store.mark_discovered_skipped api now url run_id depth parent why)
        (skips-Safe now url run_id depth parent why)

module _ {Url : Type 0} (api : UrlApi Url) where
  -- Calls of the ledger, each with its time and with what the database answers to its parts.
  unfoldable pub meanwhile : List (ℕ × Request Url × Calls) → Database → Database
  meanwhile [] db = db
  meanwhile ((now, q, calls) ∷ rest) db = meanwhile rest (answer api now q calls db).2

  meanwhile-Remembers :
      (id : ℕ) (r : SuccessRecord Url) (between : List (ℕ × Request Url × Calls)) (db : Database)
      → Remembers api (api.as_str r.url) id r.attempt_id r.outbound db.tables
      → Remembers api (api.as_str r.url) id r.attempt_id r.outbound (meanwhile between db).tables
  unfolding meanwhile
  meanwhile-Remembers id r [] db m = m
  meanwhile-Remembers id r ((now, q, calls) ∷ rest) db m =
      meanwhile-Remembers id r rest (answer api now q calls db).2
        (answer-Safe api (api.as_str r.url) id r.attempt_id r.outbound now q calls db m)

  -- An attempt whose success was recorded and that is recorded again, after any calls of the ledger
  -- in between whose parts the database may answer, refuse or leave unanswered, is accepted again and
  -- adds no row to url_history or frontier_outbox.
  pub mark_succeeded_again :
      (now later : ℕ) (r : SuccessRecord Url) (between : List (ℕ × Request Url × Calls))
      (db : Database)
      → (mark_succeeded api now r [] db).0 ≡ ok tt
      → let before = meanwhile between (mark_succeeded api now r [] db).2 in
        let again = mark_succeeded api later r [] before in
        (again.0 ≡ ok tt)
        × (again.2.tables.url_history ≡ before.tables.url_history)
        × (again.2.tables.frontier_outbox ≡ before.tables.frontier_outbox)
  mark_succeeded_again now later r between db returned =
      let once = (mark_succeeded api now r [] db).2 in
      let (id, m) = mark_succeeded-Remembers api now r db returned in
      remembered_success api later id r (meanwhile between once)
        (meanwhile-Remembers id r between once m)
