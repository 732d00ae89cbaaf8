-- ===== src/Postgres/Attempting.antt =====
-- crates/crawlrs-metadata/src/store.rs against crates/crawlrs-fakes/src/metadata_store.rs: `mark_attempting`.
use crawlrs.Prelude.{
  ℕ, ◌+◌, ◌^◌, ◌<◌, ◌≡◌, refl, ap, ◌∙◌, [], Option, none, some, lt→ltb, list_eq, nat_eq,
}
use crawlrs.Prelude.Map
use crawlrs.Prelude.Map.{Map}
use crawlrs.Core.Error.{Text, ok}
use crawlrs.Core.Types.{UrlApi}
use crawlrs.Core.Types.UrlStatus.{in_progress}
use crawlrs.Fakes.Ledger
use crawlrs.Fakes.Ledger.{LedgerState, UrlMetadata}
use crawlrs.Postgres.Tables
use crawlrs.Postgres.Tables.{Database, Tables, MetadataRow, skip_status_str}
use crawlrs.Postgres.Answered.{url_rows, insert_history-Settles, transaction_done}
use crawlrs.Postgres.Store
use crawlrs.Postgres.Store.{parse_status, into_metadata}
use crawlrs.Postgres.Requests.{attempting, answer}
use crawlrs.Postgres.Mirror.{RowMirrors, Mirrors, remember, read_parts}
use crawlrs.Postgres.Agreement.{Agrees, counted-Agrees}

module _ {Url : Type 0} (api : UrlApi Url) (parse : Text → Option Url) where
  -- The rows that the statements write.
  attempted-Mirrors :
      (now id d : ℕ) (url : Url) (host run_id : Text)
      → d < 2 ^ 31
      → RowMirrors api parse
          (api.as_str url)
          (some (Tables.new_row now id host Tables.status_in_progress run_id (Store.as_i32 d) none))
          (some (Ledger.new_row api now url in_progress d run_id none))
  unfolding into_metadata parse_status
  attempted-Mirrors now id d url host run_id small = rw (lt→ltb d (2 ^ 31) small) (refl, refl, refl)

  again-Mirrors :
      (now d : ℕ) (key run_id : Text) (row : MetadataRow) (m : UrlMetadata Url)
      → d < 2 ^ 31
      → RowMirrors api parse key (some row) (some m)
      → RowMirrors api parse key
          (some (record row {
            status = Tables.status_in_progress;
            last_run_id = run_id;
            depth = Store.as_i32 d;
            updated_at = now;
          }))
          (some
            (record m { status = in_progress; last_run_id = run_id; depth = d; updated_at = now }))
  unfolding into_metadata parse_status
  again-Mirrors now d key run_id row m small (e, h, retries) =
      let (status, same) = read_parts api parse m.url row m h in
      rw (lt→ltb d (2 ^ 31) small) (
        e,
        ap
            (λ (x : UrlMetadata Url). ok (record x {
              status = in_progress;
              last_run_id = run_id;
              depth = d;
              updated_at = now;
            }))
            same,
        retries,
      )

  pub attempting-Agrees :
      (now : ℕ) (url : Url) (run_id : Text) (d : ℕ) (db : Database) (s : LedgerState Url)
      → d < 2 ^ 31
      → Mirrors api parse (url_rows db) s
      → Agrees api parse
          (remember api parse now (attempting url run_id d) s)
          (answer api now (attempting url run_id d) [] db)
  unfolding answer remember Store.mark_attempting Tables.upsert_attempting Map.insert
      Ledger.mark_attempting Ledger.get
  attempting-Agrees now url run_id d db s small all =
      by_rows (Map.get key (url_rows db)) (Map.get key s.rows) refl refl (all key)
    where
      key : Text
      key = api.as_str url

      by_rows :
          (o : Option MetadataRow) (p : Option (UrlMetadata Url))
          → Map.get key (url_rows db) ≡ o
          → Map.get key s.rows ≡ p
          → RowMirrors api parse key o p
          → Agrees api parse
              (remember api parse now (attempting url run_id d) s)
              (answer api now (attempting url run_id d) [] db)
      by_rows none none e h m =
          let (done, left) =
            transaction_done _ _ db (db.url_seq + 1) tt (rw (e, Tables.upsert_attempting) refl)
              (insert_history-Settles _ _ _ _ _) in
          counted-Agrees api parse key _ _ db s (remember api parse now (attempting url run_id d) s)
            (Store.mark_attempting api now url run_id d [] db) all
            (attempted-Mirrors now (db.url_seq + 1) d url (Store.host_or_unknown api url) run_id
              small)
            (done, left ∙ rw (e, Tables.upsert_attempting) refl) refl
            (rw (h, Ledger.mark_attempting, Ledger.get) refl)
      by_rows (some row) (some x) e h m =
          let (done, left) =
            transaction_done _ _ db row.id tt (rw (e, Tables.upsert_attempting) refl)
              (insert_history-Settles _ _ _ _ _) in
          counted-Agrees api parse key _ _ db s (remember api parse now (attempting url run_id d) s)
            (Store.mark_attempting api now url run_id d [] db) all
            (again-Mirrors now d key run_id row x small m)
            (done, left ∙ rw (e, Tables.upsert_attempting) refl) refl
            (rw (h, Ledger.mark_attempting, Ledger.get) refl)
      by_rows none (some x) e h m = absurd m
      by_rows (some row) none e h m = absurd m
