-- ===== src/Postgres/Succeeding.antt =====
-- crates/crawlrs-metadata/src/store.rs against crates/crawlrs-fakes/src/metadata_store.rs: `mark_succeeded`.
use crawlrs.Prelude.{
  ℕ, ◌^◌, ◌<◌, ◌≡◌, refl, ap, ◌∙◌, List, [], ◌∷◌, Option, none, some, pos, to_unsigned-to_signed,
  list_eq, nat_eq, Bool-cases, contains, inl, inr,
}
use crawlrs.Prelude.Map
use crawlrs.Prelude.Map.{Map}
use crawlrs.Core.Error.{Text, ok, missing_row}
use crawlrs.Core.Types.{UrlApi}
use crawlrs.Core.Types.UrlStatus.{succeeded}
use crawlrs.Runtime.Effects.{SuccessRecord}
use crawlrs.Fakes.Ledger
use crawlrs.Fakes.Ledger.{LedgerState, UrlMetadata}
use crawlrs.Postgres.Tables
use crawlrs.Postgres.Tables.{Database, Tables, MetadataRow, skip_status_str}
use crawlrs.Postgres.Answered.{
  url_rows, insert_history-Settles, insert_children-Settles, bind-Settles, transaction_done,
  transaction_failed,
}
use crawlrs.Postgres.Store
use crawlrs.Postgres.Store.{parse_status, into_metadata}
use crawlrs.Postgres.Requests.{succeeds, answer}
use crawlrs.Postgres.Mirror.{RowMirrors, Mirrors, remember, read_parts}
use crawlrs.Postgres.Agreement.{Agrees, counted-Agrees, missing-Agrees}

module _ {Url : Type 0} (api : UrlApi Url) (parse : Text → Option Url) where
  succeeded-Mirrors :
      (now : ℕ) (key : Text) (r : SuccessRecord Url) (row : MetadataRow) (m : UrlMetadata Url)
      → r.content_hash < 2 ^ 64
      → RowMirrors api parse key (some row) (some m)
      → RowMirrors api parse key
          (some (record row {
            status = Tables.status_succeeded;
            retry_count = pos 0;
            blob_path = some r.blob_path;
            content_hash = some (Store.as_i64 r.content_hash);
            updated_at = now;
          }))
          (some (Ledger.succeeded_row api now r m))
  unfolding into_metadata parse_status
  succeeded-Mirrors now key r row m small (e, h, retries) =
      let (status, same) = read_parts api parse m.url row m h in
      (
        e,
        ap
              (λ (n : ℕ). ok (record (Store.metadata_of api parse m.url row status) {
                status = succeeded;
                retry_count = 0;
                blob_path = some r.blob_path;
                content_hash = some n;
                updated_at = now;
              }))
              (to_unsigned-to_signed (2 ^ 63) r.content_hash small)
            ∙ ap (λ (x : UrlMetadata Url). ok (Ledger.succeeded_row api now r x)) same,
        refl,
      )

  record_history-rows :
      (key : List Text) (s : LedgerState Url) → (Ledger.record_history api key s).rows ≡ s.rows
  unfolding Ledger.record_history
  record_history-rows key s = elim (Bool-cases (contains s.succeeded_attempts key)) [
    | inl e ↦ rw (e, Ledger.record_history) refl
    | inr e ↦ rw (e, Ledger.record_history) refl
  ]

  pub succeeds-Agrees :
      (now : ℕ) (r : SuccessRecord Url) (db : Database) (s : LedgerState Url)
      → r.content_hash < 2 ^ 64
      → Mirrors api parse (url_rows db) s
      → Agrees api parse (remember api parse now (succeeds r) s) (answer api now (succeeds r) [] db)
  unfolding answer remember Store.mark_succeeded Store.succeeded_body Tables.update_succeeded
      Map.insert Ledger.mark_succeeded Ledger.get Ledger.succeed
  succeeds-Agrees now r db s small all =
      by_rows (Map.get key (url_rows db)) (Map.get key s.rows) refl refl (all key)
    where
      key : Text
      key = api.as_str r.url

      by_rows :
          (o : Option MetadataRow) (p : Option (UrlMetadata Url))
          → Map.get key (url_rows db) ≡ o
          → Map.get key s.rows ≡ p
          → RowMirrors api parse key o p
          → Agrees api parse
              (remember api parse now (succeeds r) s)
              (answer api now (succeeds r) [] db)
      by_rows none none e h m =
          rw (h, Ledger.mark_succeeded, Ledger.get)
            (missing-Agrees api parse (missing_row key) db s (Store.mark_succeeded api now r [] db)
              all
              (transaction_failed _ _ db none (missing_row key)
                (rw (e, Tables.update_succeeded) refl) refl))
      by_rows (some row) (some x) e h m =
          let (done, left) =
            transaction_done _ _ db (some (row.id, row.last_run_id)) tt
              (rw (e, Tables.update_succeeded) refl)
              (bind-Settles tt tt _ _ (insert_history-Settles _ _ _ _ _)
                (insert_children-Settles api row.id r.attempt_id r.outbound)) in
          counted-Agrees api parse key _ _ db s (remember api parse now (succeeds r) s)
            (Store.mark_succeeded api now r [] db) all (succeeded-Mirrors now key r row x small m)
            (done, left ∙ rw (e, Tables.update_succeeded) refl)
            (rw (h, Ledger.mark_succeeded, Ledger.get) refl)
            (rw (h, Ledger.mark_succeeded, Ledger.get)
              (record_history-rows (key ∷ r.attempt_id ∷ []) (Ledger.with_row api now r x s)))
      by_rows none (some x) e h m = absurd m
      by_rows (some row) none e h m = absurd m
