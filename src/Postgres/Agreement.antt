-- ===== src/Postgres/Agreement.antt =====
-- crates/crawlrs-metadata/src/store.rs against crates/crawlrs-fakes/src/metadata_store.rs: when a call
-- comes to the same on both.
use crawlrs.Prelude.{ℕ, ◌≡◌, refl, sym, ap, ◌∙◌, subst, Option, some, list_eq, nat_eq}
use crawlrs.Prelude.Map
use crawlrs.Prelude.Map.{Map}
use crawlrs.Core.Error.{Text, Error, Result, ok, err}
use crawlrs.Core.Types.{UrlApi}
use crawlrs.Fakes.Ledger.{LedgerState, UrlMetadata}
use crawlrs.Postgres.Tables.{Database, MetadataRow}
use crawlrs.Postgres.Transactions.{Calls}
use crawlrs.Postgres.Atomic.{as_request, as_request-same}
use crawlrs.Postgres.Answered.{url_rows}
use crawlrs.Postgres.Mirror.{RowMirrors, Mirrors, written-Mirrors}

module _ {Url : Type 0} (api : UrlApi Url) (parse : Text → Option Url) where
  -- A request comes to the same on both sides, and the table still mirrors the rows.
  abbrev pub Agrees : Result ℕ × LedgerState Url → Result ℕ × Calls × Database → Type 0
  Agrees p o = (o.0 ≡ p.0) × Mirrors api parse (url_rows o.2) p.1

  -- Both sides write a row.
  pub written-Agrees :
      (key : Text) (row : MetadataRow) (m : UrlMetadata Url) (db : Database) (s : LedgerState Url)
      (p : Result ℕ × LedgerState Url) (o : Result ℕ × Calls × Database)
      → Mirrors api parse (url_rows db) s
      → RowMirrors api parse key (some row) (some m)
      → o.0 ≡ p.0
      → url_rows o.2 ≡ Map.insert key row (url_rows db)
      → p.1.rows ≡ Map.insert key m s.rows
      → Agrees p o
  written-Agrees key row m db s p o all h same e e' =
      (same, written-Mirrors api parse key row m (url_rows db) (url_rows o.2) s p.1 all h e e')

  -- A call that returns nothing writes a row.
  pub counted-Agrees :
      (key : Text) (row : MetadataRow) (m : UrlMetadata Url) (db : Database) (s : LedgerState Url)
      (p : Result ℕ × LedgerState Url) (u : Result (Unit {0}) × Calls × Database)
      → Mirrors api parse (url_rows db) s
      → RowMirrors api parse key (some row) (some m)
      → (u.0 ≡ ok tt) × (url_rows u.2 ≡ Map.insert key row (url_rows db))
      → p.0 ≡ ok 0
      → p.1.rows ≡ Map.insert key m s.rows
      → Agrees p (as_request u)
  counted-Agrees key row m db s p u all h (done, left) e e' =
      let (same, count, _) = as_request-same u in
      written-Agrees key row m db s p (as_request u) all h (count tt done ∙ sym e)
        (ap url_rows same ∙ left) e'

  -- A call that returns nothing leaves both sides.
  pub kept-Agrees :
      (db : Database) (s : LedgerState Url) (p : Result ℕ × LedgerState Url)
      (u : Result (Unit {0}) × Calls × Database)
      → Mirrors api parse (url_rows db) s
      → u.0 ≡ ok tt
      → url_rows u.2 ≡ url_rows db
      → p.0 ≡ ok 0
      → p.1.rows ≡ s.rows
      → Agrees p (as_request u)
  kept-Agrees db s p (r, cs, d) all e left e' left' =
      rw e (rw e' (refl, λ key. rw left (rw left' (all key))))

  -- A call that returns nothing fails for a URL without a row, and leaves both sides.
  pub missing-Agrees :
      (x : Error) (db : Database) (s : LedgerState Url) (u : Result (Unit {0}) × Calls × Database)
      → Mirrors api parse (url_rows db) s
      → (u.0 ≡ err x) × (url_rows u.2 ≡ url_rows db)
      → Agrees (err x, s) (as_request u)
  missing-Agrees x db s (r, cs, d) all (e, left) =
      rw e (refl, subst (λ t. Mirrors api parse t s) (sym left) all)
