-- ===== src/Postgres/Failing.antt =====
-- crates/crawlrs-metadata/src/store.rs against crates/crawlrs-fakes/src/metadata_store.rs: `mark_failed` and
-- `mark_permanently_failed`.
use crawlrs.Prelude.{
  ℕ, ◌+◌, ◌%◌, ◌^◌, ◌<◌, ◌≡◌, refl, sym, ap, ◌∙◌, subst, [], Option, none, some, pos, lt→ltb,
  list_eq, nat_eq, arith,
}
use crawlrs.Prelude.Map
use crawlrs.Prelude.Map.{Map}
use crawlrs.Core.Error.{Text, ok, FailureKind, missing_row}
use crawlrs.Core.Types.{UrlApi}
use crawlrs.Core.Types.UrlStatus.{failed_transient, permanently_failed}
use crawlrs.Runtime.Effects.{Reason}
use crawlrs.Fakes.Ledger
use crawlrs.Fakes.Ledger.{LedgerState, UrlMetadata}
use crawlrs.Postgres.Tables
use crawlrs.Postgres.Tables.{Database, Tables, MetadataRow, skip_status_str}
use crawlrs.Postgres.Answered.{
  url_rows, insert_history-Settles, bind-Settles, transaction_done, transaction_failed,
}
use crawlrs.Postgres.Store
use crawlrs.Postgres.Store.{parse_status, into_metadata}
use crawlrs.Postgres.Requests.{fails, dies, answer}
use crawlrs.Postgres.Mirror.{RowMirrors, Mirrors, HasRetries, remember, IsFit, read_parts}
use crawlrs.Postgres.Agreement.{Agrees, written-Agrees, counted-Agrees, missing-Agrees}

module _ {Url : Type 0} (api : UrlApi Url) (parse : Text → Option Url) where
  -- A retry that the INT column holds is counted on both sides.
  update_failed_row :
      (now n : ℕ) (key : Text) (row : MetadataRow) (db : Database)
      → Map.get key (url_rows db) ≡ some row
      → row.retry_count ≡ pos n
      → n + 1 < 2 ^ 31
      → Tables.update_failed now key db ≡ (
        ok (some (row.id, row.last_run_id, pos (n + 1))),
        Tables.with_row key
            (record row {
              status = Tables.status_failed_transient;
              retry_count = pos (n + 1);
              updated_at = now;
            })
            db,
      )
  unfolding Tables.update_failed
  update_failed_row now n key row db e retries small =
      rw (e, Tables.update_failed) (rw retries (rw (lt→ltb (n + 1) (2 ^ 31) small) refl))

  failed-Mirrors :
      (now : ℕ) (key : Text) (row : MetadataRow) (m : UrlMetadata Url)
      → m.retry_count + 1 < 2 ^ 31
      → RowMirrors api parse key (some row) (some m)
      → RowMirrors api parse key
          (some (record row {
            status = Tables.status_failed_transient;
            retry_count = pos (m.retry_count + 1);
            updated_at = now;
          }))
          (some (record m {
            status = failed_transient;
            retry_count = (m.retry_count + 1) % 2 ^ 32;
            updated_at = now;
          }))
  unfolding into_metadata parse_status
  failed-Mirrors now key row m small (e, h, retries) =
      let (status, same) = read_parts api parse m.url row m h in
      let exact : (m.retry_count + 1) % 2 ^ 32 ≡ m.retry_count + 1 = omega arith in
      rw exact (
        e,
        ap
            (λ (x : UrlMetadata Url). ok (record x {
              status = failed_transient;
              retry_count = m.retry_count + 1;
              updated_at = now;
            }))
            same,
        refl,
      )

  pub failed-Agrees :
      (now : ℕ) (url : Url) (k : FailureKind) (db : Database) (s : LedgerState Url)
      → IsFit api parse (fails url k) s
      → Mirrors api parse (url_rows db) s
      → Agrees api parse
          (remember api parse now (fails url k) s)
          (answer api now (fails url k) [] db)
  unfolding answer remember Store.mark_failed Map.insert Ledger.mark_failed Ledger.get
  failed-Agrees now url k db s fit all =
      by_rows (Map.get key (url_rows db)) (Map.get key s.rows) refl refl (all key) fit
    where
      key : Text
      key = api.as_str url

      by_rows :
          (o : Option MetadataRow) (p : Option (UrlMetadata Url))
          → Map.get key (url_rows db) ≡ o
          → Map.get key s.rows ≡ p
          → RowMirrors api parse key o p
          → HasRetries api parse p
          → Agrees api parse
              (remember api parse now (fails url k) s)
              (answer api now (fails url k) [] db)
      by_rows none none e h m small =
          let (failed, left) =
            transaction_failed (Tables.update_failed now key) _ db none (missing_row key)
              (unfold Tables.update_failed in rw (e, Tables.update_failed) refl) refl in
          rw (h, Ledger.mark_failed, Ledger.get)
            (failed, subst (λ t. Mirrors api parse t s) (sym left) all)
      by_rows (some row) (some x) e h m small =
          let updated = update_failed_row now x.retry_count key row db e m.2 small in
          let (done, left) =
            transaction_done _ _ db (some (row.id, row.last_run_id, pos (x.retry_count + 1)))
              (x.retry_count + 1) (ap (λ o. o.0) updated)
              (bind-Settles tt (x.retry_count + 1) _ _ (insert_history-Settles _ _ _ _ _)
                (record { settled = λ d. (refl, refl, refl) })) in
          written-Agrees api parse key _ _ db s (remember api parse now (fails url k) s)
            (Store.mark_failed api now url k [] db) all (failed-Mirrors now key row x small m)
            (done ∙ rw (h, Ledger.mark_failed, Ledger.get) (ap ok (omega arith)))
            (left ∙ ap (λ o. url_rows o.1) updated) (rw (h, Ledger.mark_failed, Ledger.get) refl)
      by_rows none (some x) e h m small = absurd m
      by_rows (some row) none e h m small = absurd m

  died-Mirrors :
      (now : ℕ) (key : Text) (row : MetadataRow) (m : UrlMetadata Url)
      → RowMirrors api parse key (some row) (some m)
      → RowMirrors api parse key
          (some (record row { status = Tables.status_permanently_failed; updated_at = now }))
          (some (record m { status = permanently_failed; updated_at = now }))
  unfolding into_metadata parse_status
  died-Mirrors now key row m (e, h, retries) =
      let (status, same) = read_parts api parse m.url row m h in
      (
        e,
        ap
            (λ (x : UrlMetadata Url).
              ok (record x { status = permanently_failed; updated_at = now }))
            same,
        retries,
      )

  pub died-Agrees :
      (now : ℕ) (url : Url) (why : Reason) (db : Database) (s : LedgerState Url)
      → Mirrors api parse (url_rows db) s
      → Agrees api parse
          (remember api parse now (dies url why) s)
          (answer api now (dies url why) [] db)
  unfolding answer remember Store.mark_permanently_failed Tables.update_permanently_failed
      Map.insert Ledger.mark_permanently_failed Ledger.get
  died-Agrees now url why db s all =
      by_rows (Map.get key (url_rows db)) (Map.get key s.rows) refl refl (all key)
    where
      key : Text
      key = api.as_str url

      by_rows :
          (o : Option MetadataRow) (p : Option (UrlMetadata Url))
          → Map.get key (url_rows db) ≡ o
          → Map.get key s.rows ≡ p
          → RowMirrors api parse key o p
          → Agrees api parse
              (remember api parse now (dies url why) s)
              (answer api now (dies url why) [] db)
      by_rows none none e h m =
          rw (h, Ledger.mark_permanently_failed, Ledger.get)
            (missing-Agrees api parse (missing_row key) db s
              (Store.mark_permanently_failed api now url why [] db) all
              (transaction_failed _ _ db none (missing_row key)
                (rw (e, Tables.update_permanently_failed) refl) refl))
      by_rows (some row) (some x) e h m =
          let (done, left) =
            transaction_done _ _ db (some (row.id, row.last_run_id)) tt
              (rw (e, Tables.update_permanently_failed) refl) (insert_history-Settles _ _ _ _ _) in
          counted-Agrees api parse key _ _ db s (remember api parse now (dies url why) s)
            (Store.mark_permanently_failed api now url why [] db) all (died-Mirrors now key row x m)
            (done, left ∙ rw (e, Tables.update_permanently_failed) refl)
            (rw (h, Ledger.mark_permanently_failed, Ledger.get) refl)
            (rw (h, Ledger.mark_permanently_failed, Ledger.get) refl)
      by_rows none (some x) e h m = absurd m
      by_rows (some row) none e h m = absurd m
