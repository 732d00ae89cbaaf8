-- ===== src/Postgres/Skipping.antt =====
-- crates/crawlrs-metadata/src/store.rs against crates/crawlrs-fakes/src/metadata_store.rs: `mark_discovered_skipped`.
use crawlrs.Prelude.{
  ℕ, ◌+◌, ◌^◌, ◌<◌, ◌≡◌, refl, [], Option, none, some, pos, lt→ltb, list_eq, nat_eq,
}
use crawlrs.Prelude.Map
use crawlrs.Prelude.Map.{Map}
use crawlrs.Core.Error.{Text, ok}
use crawlrs.Core.Types.{UrlApi, SkipReason}
use crawlrs.Core.Types.UrlStatus.{skipped}
use crawlrs.Fakes.Ledger
use crawlrs.Fakes.Ledger.{LedgerState, UrlMetadata}
use crawlrs.Postgres.Tables
use crawlrs.Postgres.Tables.{Database, Tables, MetadataRow, skip_status_str}
use crawlrs.Postgres.Transactions.{execute}
use crawlrs.Postgres.Answered.{url_rows}
use crawlrs.Postgres.Store
use crawlrs.Postgres.Store.{parse_status, into_metadata}
use crawlrs.Postgres.Requests.{skips, answer}
use crawlrs.Postgres.Mirror.{RowMirrors, Mirrors, IsReadable, remember, IsFit}
use crawlrs.Postgres.Agreement.{Agrees, counted-Agrees, kept-Agrees}

module _ {Url : Type 0} (api : UrlApi Url) (parse : Text → Option Url) where
  skipped-Mirrors :
      (now id d : ℕ) (url : Url) (host run_id : Text) (parent : Option Url) (why : SkipReason)
      → d < 2 ^ 31
      → IsReadable api parse parent
      → RowMirrors api parse
          (api.as_str url)
          (some (
            Tables.new_row now id host
              (skip_status_str why)
              run_id
              (Store.as_i32 d)
              (Store.parent_text api parent)))
          (some (Ledger.new_row api now url skipped d run_id parent))
  unfolding into_metadata parse_status Store.parent_text skip_status_str
  skipped-Mirrors now id d url host run_id parent why small readable =
      rw (lt→ltb d (2 ^ 31) small) (refl, by_parent parent why readable, refl)
    where
      by_parent :
          (parent : Option Url) (why : SkipReason)
          → IsReadable api parse parent
          → into_metadata api parse url (
              Tables.new_row now id host
                (skip_status_str why)
                run_id
                (pos d)
                (Store.parent_text api parent))
            ≡ ok (Ledger.new_row api now url skipped d run_id parent)
      by_parent none SkipReason.blocklist h = refl
      by_parent none SkipReason.robots h = refl
      by_parent none SkipReason.depth h = refl
      by_parent none SkipReason.max_urls h = refl
      by_parent (some u) SkipReason.blocklist h = rw h refl
      by_parent (some u) SkipReason.robots h = rw h refl
      by_parent (some u) SkipReason.depth h = rw h refl
      by_parent (some u) SkipReason.max_urls h = rw h refl

  pub skipped-Agrees :
      (now : ℕ) (url : Url) (run_id : Text) (d : ℕ) (parent : Option Url) (why : SkipReason)
      (db : Database) (s : LedgerState Url)
      → IsFit api parse (skips url run_id d parent why) s
      → Mirrors api parse (url_rows db) s
      → Agrees api parse
          (remember api parse now (skips url run_id d parent why) s)
          (answer api now (skips url run_id d parent why) [] db)
  unfolding answer remember Store.mark_discovered_skipped Tables.insert_skipped execute Map.insert
      Ledger.mark_discovered_skipped
  skipped-Agrees now url run_id d parent why db s fit all =
      by_rows (Map.get key (url_rows db)) (Map.get key s.rows) refl refl (all key)
    where
      key : Text
      key = api.as_str url

      by_rows :
          (o : Option MetadataRow) (p : Option (UrlMetadata Url))
          → Map.get key (url_rows db) ≡ o
          → Map.get key s.rows ≡ p
          → RowMirrors api parse key o p
          → Agrees api parse
              (remember api parse now (skips url run_id d parent why) s)
              (answer api now (skips url run_id d parent why) [] db)
      by_rows none none e h m =
          counted-Agrees api parse key _ _ db s
            (remember api parse now (skips url run_id d parent why) s)
            (Store.mark_discovered_skipped api now url run_id d parent why [] db) all
            (skipped-Mirrors now (db.url_seq + 1) d url (Store.host_or_unknown api url) run_id
              parent why fit.0 fit.1)
            (rw (e, Tables.insert_skipped) refl, rw (e, Tables.insert_skipped) refl) refl
            (rw (h, Ledger.mark_discovered_skipped) refl)
      by_rows (some row) (some x) e h m =
          kept-Agrees api parse db s (remember api parse now (skips url run_id d parent why) s)
            (Store.mark_discovered_skipped api now url run_id d parent why [] db) all
            (rw (e, Tables.insert_skipped) refl) (rw (e, Tables.insert_skipped) refl) refl
            (rw (h, Ledger.mark_discovered_skipped) refl)
      by_rows none (some x) e h m = absurd m
      by_rows (some row) none e h m = absurd m
