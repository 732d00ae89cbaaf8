-- ===== src/Postgres/Tables.antt =====
-- crates/crawlrs-metadata/migrations: the tables of the ledger, and the statements that
-- crates/crawlrs-metadata/src/store.rs runs on them. A table is what its rows are by their keys; the
-- `url_metadata` table is keyed by its unique `url`.
use crawlrs.Prelude.{
  ℕ, zero, suc, ◌+◌, ◌^◌, Bool, false, ◌&&◌, ◌||◌, List, [], ◌∷◌, ◌++◌, Option, none, some, ℤ, pos,
  negsuc, ltb, eqb, if◌then◌else◌, list_eq, nat_eq, ◌==◌,
}
use crawlrs.Prelude.Map
use crawlrs.Prelude.Map.{Map}
use crawlrs.Core.Ascii.{codes}
use crawlrs.Core.Error.{Text, Result, ok, err, sqlx, FailureKind}
use crawlrs.Core.Types.{SkipReason}
use crawlrs.Runtime.Effects.{Reason}

-- A row of url_metadata, without its `url` and with INT and BIGINT columns as integers.
pub record MetadataRow : Type 0 where
  pub id : ℕ
  pub host : Text
  pub status : Text
  pub retry_count : ℤ
  pub blob_path : Option Text
  pub content_hash : Option ℤ
  pub depth : ℤ
  pub last_run_id : Text
  pub discovered_from : Option Text
  pub discovered_at : ℕ
  pub updated_at : ℕ

pub data Detail : Type 0 where
  blob : Text → Detail
  kind : FailureKind → Detail
  reason : Reason → Detail

pub record HistoryRow : Type 0 where
  pub url_id : ℕ
  pub run_id : Text
  pub event : Text
  pub detail : Option Detail
  pub attempt_id : Option Text

-- A row of frontier_outbox; whether `published_at` is set.
pub record OutboxRow : Type 0 where
  pub id : ℕ
  pub url : Text
  pub depth : ℤ
  pub discovered_from : Option Text
  pub parent_url_id : ℕ
  pub parent_attempt_id : Text
  pub published : Bool

pub record Tables : Type 0 where
  pub url_metadata : Map Text MetadataRow
  pub url_history : List HistoryRow
  pub frontier_outbox : List OutboxRow

-- The tables, and the sequences behind BIGSERIAL, which no rollback takes back.
pub record Database : Type 0 where
  pub tables : Tables
  pub url_seq : ℕ
  pub outbox_seq : ℕ

abbrev pub status_in_progress : Text
status_in_progress = codes "in_progress"

abbrev pub status_succeeded : Text
status_succeeded = codes "succeeded"

abbrev pub status_failed_transient : Text
status_failed_transient = codes "failed_transient"

abbrev pub status_permanently_failed : Text
status_permanently_failed = codes "permanently_failed"

unfoldable pub skip_status_str : SkipReason → Text
skip_status_str SkipReason.blocklist = codes "skipped_blocklist"
skip_status_str SkipReason.robots = codes "skipped_robots"
skip_status_str SkipReason.depth = codes "skipped_depth"
skip_status_str SkipReason.max_urls = codes "skipped_max_urls"

-- A statement on the database: its rows or its error, and what it leaves.
abbrev pub Statement : Type 0 → Type 0
Statement A = Database → Result A × Database

abbrev pub with_row : Text → MetadataRow → Database → Database
with_row url row db = record db {
  tables = record db.tables { url_metadata = Map.insert url row db.tables.url_metadata };
}

-- SELECT ... FROM url_metadata WHERE url = $1
unfoldable pub select_url : Text → Statement (Option MetadataRow)
select_url url db = (ok (Map.get url db.tables.url_metadata), db)

abbrev pub new_row : ℕ → ℕ → Text → Text → Text → ℤ → Option Text → MetadataRow
new_row now id host status run_id depth discovered_from = record {
  id = id;
  host = host;
  status = status;
  retry_count = pos 0;
  blob_path = none;
  content_hash = none;
  depth = depth;
  last_run_id = run_id;
  discovered_from = discovered_from;
  discovered_at = now;
  updated_at = now;
}

-- INSERT ... ON CONFLICT (url) DO UPDATE ... RETURNING id; the id of a row that is not inserted is
-- taken from the sequence nevertheless.
unfoldable pub upsert_attempting : ℕ → Text → Text → Text → ℤ → Statement ℕ
upsert_attempting now url host run_id depth db =
    let drawn = record db { url_seq = db.url_seq + 1 } in
    elim (Map.get url db.tables.url_metadata) [
      | none ↦ (
        ok (db.url_seq + 1),
        with_row url (new_row now (db.url_seq + 1) host status_in_progress run_id depth none) drawn,
      )
      | some row ↦ (
        ok row.id,
        with_row url
            (record row {
              status = status_in_progress;
              last_run_id = run_id;
              depth = depth;
              updated_at = now;
            })
            drawn,
      )
    ]

-- UPDATE url_metadata SET status = $1, retry_count = 0, ... WHERE url = $4 RETURNING id, last_run_id
unfoldable pub update_succeeded : ℕ → Text → Text → ℤ → Statement (Option (ℕ × Text))
update_succeeded now url blob_path content_hash db = elim (Map.get url db.tables.url_metadata) [
  | none ↦ (ok none, db)
  | some row ↦ (
    ok (some (row.id, row.last_run_id)),
    with_row url
        (record row {
          status = status_succeeded;
          retry_count = pos 0;
          blob_path = some blob_path;
          content_hash = some content_hash;
          updated_at = now;
        })
        db,
  )
]

-- `retry_count + 1` on an INT.
abbrev pub int_suc : ℤ → Option ℤ
int_suc (pos n) = if ltb (n + 1) (2 ^ 31) then some (pos (n + 1)) else none
int_suc (negsuc zero) = some (pos 0)
int_suc (negsuc (suc n)) = some (negsuc n)

-- UPDATE url_metadata SET status = $1, retry_count = retry_count + 1, ... WHERE url = $2 RETURNING
-- id, last_run_id, retry_count
unfoldable pub update_failed : ℕ → Text → Statement (Option (ℕ × Text × ℤ))
update_failed now url db = elim (Map.get url db.tables.url_metadata) [
  | none ↦ (ok none, db)
  | some row ↦ elim (int_suc row.retry_count) [
    | none ↦ (err (sqlx (codes "integer out of range")), db)
    | some retries ↦ (
      ok (some (row.id, row.last_run_id, retries)),
      with_row url
          (record row { status = status_failed_transient; retry_count = retries; updated_at = now })
          db,
    )
  ]
]

-- UPDATE url_metadata SET status = $1, updated_at = NOW() WHERE url = $2 RETURNING id, last_run_id
unfoldable pub update_permanently_failed : ℕ → Text → Statement (Option (ℕ × Text))
update_permanently_failed now url db = elim (Map.get url db.tables.url_metadata) [
  | none ↦ (ok none, db)
  | some row ↦ (
    ok (some (row.id, row.last_run_id)),
    with_row url (record row { status = status_permanently_failed; updated_at = now }) db,
  )
]

-- INSERT INTO url_metadata ... ON CONFLICT (url) DO NOTHING
unfoldable pub insert_skipped :
    ℕ → Text → Text → Text → Text → ℤ → Option Text → Statement (Unit {0})
insert_skipped now url host status run_id depth discovered_from db =
    let drawn = record db { url_seq = db.url_seq + 1 } in
    elim (Map.get url db.tables.url_metadata) [
      | none ↦ (
        ok tt,
        with_row url (new_row now (db.url_seq + 1) host status run_id depth discovered_from) drawn,
      )
      | some row ↦ (ok tt, drawn)
    ]

-- The unique constraint on (url_id, attempt_id), for which a NULL equals nothing.
unfoldable pub same_attempt : ℕ → Option Text → HistoryRow → Bool
same_attempt url_id none h = false
same_attempt url_id (some attempt) h = elim h.attempt_id [
  | none ↦ false
  | some other ↦ eqb url_id h.url_id && (attempt == other)
]

unfoldable pub has_attempt : ℕ → Option Text → List HistoryRow → Bool
unfolding same_attempt
has_attempt url_id attempt [] = false
has_attempt url_id attempt (h ∷ hs) = same_attempt url_id attempt h || has_attempt url_id attempt hs

-- INSERT INTO url_history ... ON CONFLICT (url_id, attempt_id) DO NOTHING
unfoldable pub insert_history : ℕ → Text → Text → Option Detail → Option Text → Statement (Unit {0})
unfolding has_attempt
insert_history url_id run_id event detail attempt_id db =
    if has_attempt url_id attempt_id db.tables.url_history then (ok tt, db) else (
      ok tt,
      record db {
        tables = record db.tables {
          url_history =
              record {
                url_id = url_id;
                run_id = run_id;
                event = event;
                detail = detail;
                attempt_id = attempt_id;
              }
              ∷ db.tables.url_history;
        };
      },
    )

-- The unique constraint on (parent_url_id, parent_attempt_id, url).
unfoldable pub has_child : ℕ → Text → Text → List OutboxRow → Bool
has_child parent attempt url [] = false
has_child parent attempt url (row ∷ rows) =
    eqb parent row.parent_url_id && (attempt == row.parent_attempt_id) && (url == row.url)
    || has_child parent attempt url rows

-- INSERT INTO frontier_outbox ... ON CONFLICT (parent_url_id, parent_attempt_id, url) DO NOTHING
unfoldable pub insert_outbox_row : ℕ → Text → Text → ℤ → Option Text → Statement (Unit {0})
unfolding has_child
insert_outbox_row parent attempt url depth discovered_from db =
    let drawn = record db { outbox_seq = db.outbox_seq + 1 } in
    if has_child parent attempt url db.tables.frontier_outbox then (ok tt, drawn) else (
      ok tt,
      record drawn {
        tables = record db.tables {
          frontier_outbox =
              db.tables.frontier_outbox
              ++ record {
                id = db.outbox_seq + 1;
                url = url;
                depth = depth;
                discovered_from = discovered_from;
                parent_url_id = parent;
                parent_attempt_id = attempt;
                published = false;
              }
                ∷ [];
        };
      },
    )
