-- ===== src/Postgres/Refinement.antt =====
-- crates/crawlrs-metadata/src/store.rs against crates/crawlrs-fakes/src/metadata_store.rs: histories of
-- requests.
use crawlrs.Prelude.{ℕ, ◌≡◌, refl, sym, ap, ◌∙◌, List, [], ◌∷◌, Option, none, some, list_eq, nat_eq}
use crawlrs.Prelude.Map
use crawlrs.Prelude.Map.{Map}
use crawlrs.Core.Error.{Text, Result, ok}
use crawlrs.Core.Types.{UrlApi}
use crawlrs.Fakes.Ledger
use crawlrs.Fakes.Ledger.{LedgerState, UrlMetadata}
use crawlrs.Postgres.Tables
use crawlrs.Postgres.Tables.{Database, Tables, MetadataRow, skip_status_str}
use crawlrs.Postgres.Transactions.{execute}
use crawlrs.Postgres.Answered.{url_rows}
use crawlrs.Postgres.Store
use crawlrs.Postgres.Store.{parse_status, into_metadata}
use crawlrs.Postgres.Requests.{Request, attempting, succeeds, fails, dies, skips, answer}
use crawlrs.Postgres.Mirror.{RowMirrors, Mirrors, remember, IsFit}
use crawlrs.Postgres.Agreement.{Agrees}
use crawlrs.Postgres.Attempting.{attempting-Agrees}
use crawlrs.Postgres.Succeeding.{succeeds-Agrees}
use crawlrs.Postgres.Failing.{failed-Agrees, died-Agrees}
use crawlrs.Postgres.Skipping.{skipped-Agrees}

module _ {Url : Type 0} (api : UrlApi Url) (parse : Text → Option Url) where
  -- An answered request comes to the same on Postgres and in memory, and the table goes on to hold
  -- what the rows in memory hold.
  answer-Refines :
      (now : ℕ) (q : Request Url) (db : Database) (s : LedgerState Url)
      → IsFit api parse q s
      → Mirrors api parse (url_rows db) s
      → Agrees api parse (remember api parse now q s) (answer api now q [] db)
  answer-Refines now (attempting url run_id d) db s fit all =
      attempting-Agrees api parse now url run_id d db s fit all
  answer-Refines now (succeeds r) db s fit all = succeeds-Agrees api parse now r db s fit all
  answer-Refines now (fails url k) db s fit all = failed-Agrees api parse now url k db s fit all
  answer-Refines now (dies url why) db s fit all = died-Agrees api parse now url why db s all
  answer-Refines now (skips url run_id d parent why) db s fit all =
      skipped-Agrees api parse now url run_id d parent why db s fit all

  -- A history of requests, each with its time.
  pub run : List (ℕ × Request Url) → Database → List (Result ℕ) × Database
  run [] db = ([], db)
  run ((now, q) ∷ qs) db =
      let o = answer api now q [] db in let (rs, final) = run qs o.2 in (o.0 ∷ rs, final)

  pub remember_all : List (ℕ × Request Url) → LedgerState Url → List (Result ℕ) × LedgerState Url
  remember_all [] s = ([], s)
  remember_all ((now, q) ∷ qs) s =
      let (r, s') = remember api parse now q s in
      let (rs, final) = remember_all qs s' in (r ∷ rs, final)

  abbrev pub AllFit : List (ℕ × Request Url) → LedgerState Url → Type 0
  AllFit [] s = Unit
  AllFit ((now, q) ∷ qs) s = IsFit api parse q s × AllFit qs (remember api parse now q s).1

  run-Mirrors :
      (qs : List (ℕ × Request Url)) (db : Database) (s : LedgerState Url)
      → AllFit qs s
      → Mirrors api parse (url_rows db) s
      → ((run qs db).0 ≡ (remember_all qs s).0)
        × Mirrors api parse (url_rows (run qs db).1) (remember_all qs s).1
  unfolding run remember_all
  run-Mirrors [] db s fit all = (refl, all)
  run-Mirrors ((now, q) ∷ qs) db s fit all =
      let (same, all') = answer-Refines now q db s fit.0 all in
      let (rest, final) =
        run-Mirrors qs (answer api now q [] db).2 (remember api parse now q s).1 fit.1 all' in
      (
        ap (λ r. r ∷ (run qs (answer api now q [] db).2).0) same
            ∙ ap (λ rs. (remember api parse now q s).0 ∷ rs) rest,
        final,
      )

  read_row_done :
      (key : Text) (url : Url) (o : Option MetadataRow) (p : Option (UrlMetadata Url))
      (db : Database)
      → ((u v : Url) → api.as_str u ≡ api.as_str v → u ≡ v)
      → key ≡ api.as_str url
      → RowMirrors api parse key o p
      → (Store.read_row api parse url o [] db).0 ≡ ok p
  unfolding Store.read_row
  read_row_done key url none none db same e m = refl
  read_row_done key url (some row) (some x) db same e m =
      rw (sym (same x.url url (m.0 ∙ e))) (rw (m.1, Store.read_row) refl)
  read_row_done key url none (some x) db same e m = absurd m
  read_row_done key url (some row) none db same e m = absurd m

  -- On tables and a ledger that are empty at first, any history of answered requests whose numbers fit
  -- the columns and whose parents parse returns the same in Postgres and in memory; then `get` of any
  -- URL returns what the in-memory `get` returns, if different URLs have different texts.
  pub history-Refines :
      (qs : List (ℕ × Request Url)) (db : Database) (url : Url)
      → url_rows db ≡ []
      → AllFit qs Ledger.empty_ledger
      → ((u v : Url) → api.as_str u ≡ api.as_str v → u ≡ v)
      → let p = remember_all qs Ledger.empty_ledger in
        ((run qs db).0 ≡ p.0)
        × ((Store.get api parse url [] (run qs db).1).0 ≡ ok (Ledger.get api url p.1))
  unfolding Store.get execute Tables.select_url Ledger.get
  history-Refines qs db url empty fit same =
      let (results, all) =
        run-Mirrors qs db Ledger.empty_ledger fit (λ key. rw empty (unfold Map.get in tt)) in
      (
        results,
        read_row_done (api.as_str url) url _ _ (run qs db).1 same refl (all (api.as_str url)),
      )
