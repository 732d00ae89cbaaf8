-- ===== src/Postgres/Store.antt =====
-- crates/crawlrs-metadata/src/store.rs: `PostgresMetadataStore`. `CanonicalUrl::parse` is a
-- parameter; `now` is the NOW() of the transaction, and `locked` are the outbox rows that other
-- transactions hold.
use crawlrs.Prelude.{
  ℕ, ◌^◌, ◌||◌, List, [], ◌∷◌, Option, none, some, ℤ, pos, negsuc, to_signed, to_unsigned,
  if◌then◌else◌, list_eq, nat_eq, ◌==◌, unwrap_or,
}
use crawlrs.Core.Ascii.{codes}
use crawlrs.Core.Error.{Text, Result, ok, err, panic, missing_row, unknown_status, FailureKind}
use crawlrs.Core.Types.{UrlApi, UrlEntry, UrlStatus, SkipReason}
use crawlrs.Core.Types.UrlStatus.{
  pending, in_progress, succeeded, failed_transient, permanently_failed, skipped,
}
use crawlrs.Runtime.Effects.{SuccessRecord, Reason}
use crawlrs.Fakes.Ledger.{UrlMetadata}
use crawlrs.Postgres.Tables.{
  MetadataRow, blob, kind, reason, status_in_progress, status_succeeded, status_failed_transient,
  status_permanently_failed, skip_status_str, select_url, upsert_attempting, update_succeeded,
  update_failed, update_permanently_failed, insert_skipped, insert_history, insert_outbox_row,
}
use crawlrs.Postgres.Transactions.{Query, ◌>>=◌, pure, fail, ok_or, execute, transaction}

-- INT and BIGINT columns.
abbrev pub as_i32 : ℕ → ℤ
as_i32 = to_signed (2 ^ 31)

abbrev pub as_i64 : ℕ → ℤ
as_i64 = to_signed (2 ^ 63)

-- value.max(0) as u32
abbrev pub non_negative : ℤ → ℕ
non_negative (pos n) = n
non_negative (negsuc n) = 0

unfoldable pub parse_status : Text → Result UrlStatus
parse_status s =
    if s == codes "pending"
    then ok pending
    else if s == status_in_progress
    then ok in_progress
    else if s == status_succeeded
    then ok succeeded
    else if s == status_failed_transient
    then ok failed_transient
    else if s == status_permanently_failed
    then ok permanently_failed
    else if s == codes "skipped_blocklist"
        || s == codes "skipped_robots"
        || s == codes "skipped_depth"
        || s == codes "skipped_max_urls"
    then ok skipped
    else err (unknown_status s)

module _ {Url : Type 0} (api : UrlApi Url) where
  abbrev pub host_or_unknown : Url → Text
  host_or_unknown url = unwrap_or (api.host url) (codes "_unknown_")

  unfoldable pub mark_attempting : ℕ → Url → Text → ℕ → Query (Unit {0})
  mark_attempting now url run_id depth = transaction (do
    id ←
        execute (upsert_attempting now (api.as_str url) (host_or_unknown url) run_id (as_i32 depth))
    execute (insert_history id run_id (codes "attempted") none none))

  unfoldable pub parent_text : Option Url → Option Text
  parent_text none = none
  parent_text (some u) = some (api.as_str u)

  unfoldable pub insert_children : ℕ → Text → List (UrlEntry Url) → Query (Unit {0})
  unfolding parent_text
  insert_children id attempt [] = pure tt
  insert_children id attempt (child ∷ children) = do
    _ ← execute (
        insert_outbox_row id attempt (api.as_str child.url) (as_i32 child.depth)
          (parent_text child.discovered_from))
    insert_children id attempt children

  unfoldable pub succeeded_body : ℕ → SuccessRecord Url → Query (Unit {0})
  unfolding insert_children
  succeeded_body now r = do
    row ← execute (update_succeeded now (api.as_str r.url) r.blob_path (as_i64 r.content_hash))
    (id, last_run_id) ← ok_or (missing_row (api.as_str r.url)) row
    _ ← execute (
        insert_history id last_run_id (codes "succeeded") (some (blob r.blob_path))
          (some r.attempt_id))
    insert_children id r.attempt_id r.outbound

  unfoldable pub mark_succeeded : ℕ → SuccessRecord Url → Query (Unit {0})
  unfolding succeeded_body
  mark_succeeded now r = transaction (succeeded_body now r)

  unfoldable pub mark_failed : ℕ → Url → FailureKind → Query ℕ
  mark_failed now url k = transaction (do
    row ← execute (update_failed now (api.as_str url))
    (id, last_run_id, retry_count) ← ok_or (missing_row (api.as_str url)) row
    _ ← execute (insert_history id last_run_id (codes "failed") (some (kind k)) none)
    pure (to_unsigned (2 ^ 31) retry_count))

  unfoldable pub mark_permanently_failed : ℕ → Url → Reason → Query (Unit {0})
  mark_permanently_failed now url why = transaction (do
    row ← execute (update_permanently_failed now (api.as_str url))
    (id, last_run_id) ← ok_or (missing_row (api.as_str url)) row
    execute (insert_history id last_run_id (codes "permanently_failed") (some (reason why)) none))

  unfoldable pub mark_discovered_skipped :
      ℕ → Url → Text → ℕ → Option Url → SkipReason → Query (Unit {0})
  unfolding parent_text
  mark_discovered_skipped now url run_id depth discovered_from why = execute (
      insert_skipped now (api.as_str url) (host_or_unknown url) (skip_status_str why) run_id
        (as_i32 depth) (parent_text discovered_from))

module _ {Url : Type 0} (api : UrlApi Url) (parse : Text → Option Url) where
  -- An unparsable parent URL is dropped.
  abbrev pub parse_parent : Option Text → Option Url
  parse_parent none = none
  parse_parent (some raw) = parse raw

  abbrev pub metadata_of : Url → MetadataRow → UrlStatus → UrlMetadata Url
  metadata_of url row status = record {
    url = url;
    status = status;
    retry_count = non_negative row.retry_count;
    blob_path = row.blob_path;
    content_hash = elim row.content_hash as (λ _. Option ℕ) [
      | none ↦ none
      | some v ↦ some (to_unsigned (2 ^ 63) v)
    ];
    depth = non_negative row.depth;
    last_run_id = row.last_run_id;
    discovered_from = parse_parent row.discovered_from;
    discovered_at = row.discovered_at;
    updated_at = row.updated_at;
  }

  unfoldable pub into_metadata : Url → MetadataRow → Result (UrlMetadata Url)
  unfolding parse_status
  into_metadata url row = elim (parse_status row.status) [
    | ok status ↦ ok (metadata_of url row status)
    | err e ↦ err e
    | panic ↦ panic
  ]

  -- `row.map(into_metadata).transpose()`
  unfoldable pub read_row : Url → Option MetadataRow → Query (Option (UrlMetadata Url))
  unfolding into_metadata
  read_row url none = pure none
  read_row url (some row) = elim (into_metadata url row) [
    | ok m ↦ pure (some m)
    | err e ↦ fail e
    | panic ↦ λ calls db. (panic, calls, db)
  ]

  unfoldable pub get : Url → Query (Option (UrlMetadata Url))
  unfolding read_row
  get url = do row ← execute (select_url (api.as_str url)); read_row url row
