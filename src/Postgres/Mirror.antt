-- ===== src/Postgres/Mirror.antt =====
-- crates/crawlrs-metadata/src/store.rs against crates/crawlrs-fakes/src/metadata_store.rs: the rows of
-- url_metadata hold what the rows of the in-memory ledger hold.
use crawlrs.Prelude.{
  ℕ, ◌+◌, ◌^◌, ◌<◌, ◌≡◌, subst, Option, none, some, inl, inr, pos, Bool-cases, list_eq, nat_eq,
  ◌==◌,
}
use crawlrs.Prelude.Map
use crawlrs.Prelude.Map.{Map}
use crawlrs.Core.Error.{Text, Result, ok, err, panic}
use crawlrs.Core.Types.{UrlApi, UrlStatus}
use crawlrs.Fakes.Ledger
use crawlrs.Fakes.Ledger.{LedgerState, UrlMetadata}
use crawlrs.Fakes.Accounting.{same_text}
use crawlrs.Postgres.Tables.{MetadataRow}
use crawlrs.Postgres.Store
use crawlrs.Postgres.Store.{parse_status, into_metadata}
use crawlrs.Postgres.Requests.{Request, attempting, succeeds, fails, dies, skips}

module _ {Url : Type 0} (api : UrlApi Url) (parse : Text → Option Url) where
  -- What a row of the table says of the URL is what the row in memory holds.
  abbrev pub RowMirrors : Text → Option MetadataRow → Option (UrlMetadata Url) → Type 0
  RowMirrors key none none = Unit
  RowMirrors key none (some m) = ⊥
  RowMirrors key (some row) none = ⊥
  RowMirrors key (some row) (some m) =
      (api.as_str m.url ≡ key)
      × (into_metadata api parse m.url row ≡ ok m)
      × (row.retry_count ≡ pos m.retry_count)

  abbrev pub Mirrors : Map Text MetadataRow → LedgerState Url → Type 0
  Mirrors table s = (key : Text) → RowMirrors key (Map.get key table) (Map.get key s.rows)

  abbrev pub unit_result : Result (Unit {0}) → Result ℕ
  unit_result (ok u) = ok 0
  unit_result (err e) = err e
  unit_result panic = panic

  abbrev pub both : Result (Unit {0}) × LedgerState Url → Result ℕ × LedgerState Url
  both (r, s) = (unit_result r, s)

  -- A request in memory.
  unfoldable pub remember : ℕ → Request Url → LedgerState Url → Result ℕ × LedgerState Url
  remember now (attempting url run_id d) s = (ok 0, Ledger.mark_attempting api now url run_id d s)
  remember now (succeeds r) s = both (Ledger.mark_succeeded api now r s)
  remember now (fails url k) s = Ledger.mark_failed api now url k s
  remember now (dies url why) s = both (Ledger.mark_permanently_failed api now url why s)
  remember now (skips url run_id d parent why) s =
      (ok 0, Ledger.mark_discovered_skipped api now url run_id d parent s)

  abbrev pub IsReadable : Option Url → Type 0
  IsReadable none = Unit
  IsReadable (some u) = parse (api.as_str u) ≡ some u

  abbrev pub HasRetries : Option (UrlMetadata Url) → Type 0
  HasRetries none = Unit
  HasRetries (some m) = m.retry_count + 1 < 2 ^ 31

  -- Numbers that the columns hold, and a parent whose text parses to it.
  abbrev pub IsFit : Request Url → LedgerState Url → Type 0
  IsFit (attempting url run_id d) s = d < 2 ^ 31
  IsFit (succeeds r) s = r.content_hash < 2 ^ 64
  IsFit (fails url k) s = HasRetries (Map.get (api.as_str url) s.rows)
  IsFit (dies url why) s = Unit
  IsFit (skips url run_id d parent why) s = (d < 2 ^ 31) × IsReadable parent

  -- One row is written on both sides.
  pub written-Mirrors :
      (key : Text) (row : MetadataRow) (m : UrlMetadata Url) (table table' : Map Text MetadataRow)
      (s t : LedgerState Url)
      → Mirrors table s
      → RowMirrors key (some row) (some m)
      → table' ≡ Map.insert key row table
      → t.rows ≡ Map.insert key m s.rows
      → Mirrors table' t
  written-Mirrors key row m table table' s t all h e e' k = rw e (
      rw e' (
        rw (Map.get-insert key k row table) (
          rw (Map.get-insert key k m s.rows) (elim (Bool-cases (key == k)) [
            | inl same ↦
                rw same (subst (λ j. RowMirrors j (some row) (some m)) ((same_text key k).0 same) h)
            | inr other ↦ rw other (all k)
          ]))))

  -- The parts of a row that could be read.
  pub read_parts :
      (url : Url) (row : MetadataRow) (m : UrlMetadata Url)
      → into_metadata api parse url row ≡ ok m
      → (status : UrlStatus) × (Store.metadata_of api parse url row status ≡ m)
  unfolding into_metadata
  read_parts url row m = by_status (parse_status row.status)
    where
      by_status :
          (r : Result UrlStatus)
          → elim r as (λ _. Result (UrlMetadata Url)) [
            | ok status ↦ ok (Store.metadata_of api parse url row status)
            | err e ↦ err e
            | panic ↦ panic
          ]
            ≡ ok m
          → (status : UrlStatus) × (Store.metadata_of api parse url row status ≡ m)
      by_status (ok status) e = (status, cc e)
      by_status (err x) e = absurd cc
      by_status panic e = absurd cc
