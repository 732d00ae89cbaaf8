-- ===== src/Postgres/Publish.antt =====
-- crates/crawlrs-metadata/src/store.rs: `publish`, which ships rows of frontier_outbox in one
-- transaction. `locked` are the rows that other transactions hold.
use crawlrs.Prelude.{
  ℕ, zero, suc, ◌^◌, Bool, true, not, ◌||◌, List, [], ◌∷◌, Option, none, some, to_unsigned,
  if◌then◌else◌, contains, length, list_eq, nat_eq,
}
use crawlrs.Core.Error.{Text, Result, ok, err, panic, unparsable_row}
use crawlrs.Fakes.Outbox.{OutboxEntry, ids_of}
use crawlrs.Postgres.Tables.{OutboxRow, Database, Statement}
use crawlrs.Postgres.Transactions.{
  Calls, Query, ◌>>=◌, pure, lift, execute, rollback, commit, begin,
}

-- WHERE published_at IS NULL, without the rows that SKIP LOCKED steps over.
abbrev pub is_free : List ℕ → OutboxRow → Bool
is_free locked row = not (row.published || contains locked row.id)

-- ORDER BY id LIMIT $1: a new row has the greatest id and stands last.
unfoldable pub open_rows : List ℕ → ℕ → List OutboxRow → List OutboxRow
open_rows locked zero rows = []
open_rows locked (suc max) [] = []
open_rows locked (suc max) (row ∷ rows) =
    let rest = open_rows locked max rows in
    let skip = open_rows locked (suc max) rows in if is_free locked row then row ∷ rest else skip

unfoldable pub select_open : List ℕ → ℕ → Statement (List OutboxRow)
unfolding open_rows
select_open locked max db = (ok (open_rows locked max db.tables.frontier_outbox), db)

unfoldable pub set_published : List ℕ → List OutboxRow → List OutboxRow
set_published ids [] = []
set_published ids (row ∷ rows) =
    (if contains ids row.id then record row { published = true } else row) ∷ set_published ids rows

-- UPDATE frontier_outbox SET published_at = NOW() WHERE id = ANY($1)
unfoldable pub update_published : List ℕ → Statement (Unit {0})
unfolding set_published
update_published ids db = (
  ok tt,
  record db {
    tables = record db.tables { frontier_outbox = set_published ids db.tables.frontier_outbox };
  },
)

module _ {Url : Type 0} (parse : Text → Option Url) where
  -- An outbox row with an unparsable parent fails, as one with an unparsable URL does.
  unfoldable pub parent_of : OutboxRow → Result (Option Url)
  parent_of row = elim row.discovered_from [
    | none ↦ ok none
    | some raw ↦ elim (parse raw) [ none ↦ err (unparsable_row row.id raw) | some u ↦ ok (some u) ]
  ]

  unfoldable pub entry_of : OutboxRow → Result (OutboxEntry Url)
  unfolding parent_of
  entry_of row = elim (parse row.url) [
    | none ↦ err (unparsable_row row.id row.url)
    | some u ↦ elim (parent_of row) [
      | ok parent ↦ ok (record {
        id = row.id;
        entry = record {
          url = u;
          depth = to_unsigned (2 ^ 31) row.depth;
          discovered_from = parent;
        };
      })
      | err e ↦ err e
      | panic ↦ panic
    ]
  ]

  -- The loop over the rows, which ends at the first that cannot be read.
  unfoldable pub entries_of : List OutboxRow → Result (List (OutboxEntry Url))
  unfolding entry_of
  entries_of [] = ok []
  entries_of (row ∷ rows) =
      let rest = entries_of rows in
      elim (entry_of row) [
        | err e ↦ err e
        | panic ↦ panic
        | ok entry ↦ elim rest [ ok entries ↦ ok (entry ∷ entries) | err e ↦ err e | panic ↦ panic ]
      ]

  -- Shipping, and the rows that are then marked.
  unfoldable pub ship_entries :
      (List (OutboxEntry Url) → Result (Unit {0})) → List (OutboxEntry Url) → Query (Option ℕ)
  unfolding update_published
  ship_entries ship entries = do
    _ ← lift (ship entries)
    _ ← execute (update_published (ids_of entries))
    pure (some (length entries))

  unfoldable pub ship_rows :
      (List (OutboxEntry Url) → Result (Unit {0})) → List OutboxRow → Query (Option ℕ)
  unfolding entries_of ship_entries
  ship_rows ship [] = pure none
  ship_rows ship (row ∷ rows) = do
    entries ← lift (entries_of (row ∷ rows))
    ship_entries ship entries

  -- What the transaction does: none if there is no row to ship.
  unfoldable pub publish_body :
      List ℕ → ℕ → (List (OutboxEntry Url) → Result (Unit {0})) → Query (Option ℕ)
  unfolding select_open ship_rows
  publish_body locked max ship = do rows ← execute (select_open locked max); ship_rows ship rows

  -- Without rows the transaction is dropped, and with a shipped batch it is committed.
  unfoldable pub finish_publish :
      Database → Result (Option ℕ) × Calls × Database → Result ℕ × Calls × Database
  unfolding commit
  finish_publish before (ok none, calls, db) = (ok 0, calls, rollback before db)
  finish_publish before (ok (some n), calls, db) = commit n before calls db
  finish_publish before (err e, calls, db) = (err e, calls, rollback before db)
  finish_publish before (panic, calls, db) = (panic, calls, rollback before db)

  unfoldable pub publish : List ℕ → ℕ → (List (OutboxEntry Url) → Result (Unit {0})) → Query ℕ
  unfolding publish_body finish_publish begin
  publish locked max ship = begin finish_publish (publish_body locked max ship)
