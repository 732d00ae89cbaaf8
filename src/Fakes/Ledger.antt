-- ===== src/Fakes/Ledger.antt =====
-- crates/crawlrs-fakes/src/metadata_store.rs: `InMemoryMetadataStore`, the ledger of URLs and its
-- outbox. The mutex makes each method one step; the clock is an argument.
use crawlrs.Prelude.{
  ℕ, ◌+◌, ◌%◌, ◌^◌, List, [], ◌∷◌, ◌++◌, Option, none, some, if◌then◌else◌, contains, length,
  nat_eq, list_eq,
}
use crawlrs.Prelude.Map
use crawlrs.Prelude.Map.{Map}
use crawlrs.Core.Error.{Text, Result, ok, err, panic, missing_row, FailureKind}
use crawlrs.Core.Types.{UrlApi, UrlEntry, UrlStatus}
use crawlrs.Core.Types.UrlStatus.{
  in_progress, succeeded, failed_transient, permanently_failed, skipped,
}
use crawlrs.Runtime.Effects.{SuccessRecord, Reason}
use crawlrs.Fakes.Outbox.{
  OutboxState, OutboxRow, OutboxEntry, empty_outbox, record_outbound, lease_batch, finalize_lease,
  release_lease, ids_of, is_open,
}

pub record UrlMetadata (Url : Type 0) : Type 0 where
  pub url : Url
  pub status : UrlStatus
  pub retry_count : ℕ
  pub blob_path : Option Text
  pub content_hash : Option ℕ
  pub depth : ℕ
  pub last_run_id : Text
  pub discovered_from : Option Url
  pub discovered_at : ℕ
  pub updated_at : ℕ

pub record LedgerState (Url : Type 0) : Type 0 where
  pub rows : Map Text (UrlMetadata Url)
  pub dlq : List (Text × Reason)
  pub succeeded_attempts : List (List Text)
  pub succeeded_history_count : ℕ
  pub outbox : OutboxState Url

module _ {Url : Type 0} where
  abbrev pub empty_ledger : LedgerState Url
  empty_ledger = record {
    rows = [];
    dlq = [];
    succeeded_attempts = [];
    succeeded_history_count = 0;
    outbox = empty_outbox;
  }

  unfoldable pub dlq_count : LedgerState Url → ℕ
  dlq_count s = length s.dlq

  unfoldable pub outbox_row_count : LedgerState Url → ℕ
  outbox_row_count s = length s.outbox.rows

  unfoldable pub count_open : List ℕ → List (OutboxRow Url) → ℕ
  unfolding is_open
  count_open leased [] = 0
  count_open leased (row ∷ rows) = (if is_open leased row then 1 else 0) + count_open leased rows

  unfoldable pub unpublished_outbox_count : LedgerState Url → ℕ
  unfolding count_open
  unpublished_outbox_count s = count_open s.outbox.leased s.outbox.rows

module _ {Url : Type 0} (api : UrlApi Url) where
  unfoldable pub get : Url → LedgerState Url → Option (UrlMetadata Url)
  get url s = Map.get (api.as_str url) s.rows

  -- A row for a URL without one.
  abbrev pub new_row : ℕ → Url → UrlStatus → ℕ → Text → Option Url → UrlMetadata Url
  new_row now url status depth run_id discovered_from = record {
    url = url;
    status = status;
    retry_count = 0;
    blob_path = none;
    content_hash = none;
    depth = depth;
    last_run_id = run_id;
    discovered_from = discovered_from;
    discovered_at = now;
    updated_at = now;
  }

  unfoldable pub mark_attempting : ℕ → Url → Text → ℕ → LedgerState Url → LedgerState Url
  unfolding get
  mark_attempting now url run_id depth s = elim (get url s) [
    | none ↦ record s {
      rows = Map.insert (api.as_str url) (new_row now url in_progress depth run_id none) s.rows;
    }
    | some row ↦ record s {
      rows =
          Map.insert (api.as_str url)
            (record row {
              status = in_progress;
              last_run_id = run_id;
              depth = depth;
              updated_at = now;
            })
            s.rows;
    }
  ]

  -- One history row for each attempt.
  unfoldable pub record_history : List Text → LedgerState Url → LedgerState Url
  record_history key s = if contains s.succeeded_attempts key then s else record s {
    succeeded_attempts = key ∷ s.succeeded_attempts;
    succeeded_history_count = (s.succeeded_history_count + 1) % 2 ^ 64;
  }

  unfoldable pub record_children :
      Url → Text → List (UrlEntry Url) → OutboxState Url → OutboxState Url
  unfolding record_outbound
  record_children parent attempt [] s = s
  record_children parent attempt (child ∷ children) s =
      record_children parent attempt children (record_outbound api parent attempt child s)

  abbrev pub succeeded_row : ℕ → SuccessRecord Url → UrlMetadata Url → UrlMetadata Url
  succeeded_row now r row = record row {
    status = succeeded;
    retry_count = 0;
    blob_path = some r.blob_path;
    content_hash = some r.content_hash;
    updated_at = now;
  }

  abbrev pub with_row : ℕ → SuccessRecord Url → UrlMetadata Url → LedgerState Url → LedgerState Url
  with_row now r row s = record s {
    rows = Map.insert (api.as_str r.url) (succeeded_row now r row) s.rows;
  }

  -- `mark_succeeded` on a URL that has a row.
  unfoldable pub succeed :
      ℕ → SuccessRecord Url → UrlMetadata Url → LedgerState Url → LedgerState Url
  unfolding record_history record_children
  succeed now r row s =
      let noted = record_history (api.as_str r.url ∷ r.attempt_id ∷ []) (with_row now r row s) in
      record noted { outbox = record_children r.url r.attempt_id r.outbound noted.outbox }

  unfoldable pub mark_succeeded :
      ℕ → SuccessRecord Url → LedgerState Url → Result (Unit {0}) × LedgerState Url
  unfolding get succeed
  mark_succeeded now r s = elim (get r.url s) [
    | none ↦ (err (missing_row (api.as_str r.url)), s)
    | some row ↦ (ok tt, succeed now r row s)
  ]

  unfoldable pub mark_failed : ℕ → Url → FailureKind → LedgerState Url → Result ℕ × LedgerState Url
  unfolding get
  mark_failed now url kind s = elim (get url s) [
    | none ↦ (err (missing_row (api.as_str url)), s)
    | some row ↦ (
      ok ((row.retry_count + 1) % 2 ^ 32),
      record s {
        rows =
            Map.insert (api.as_str url)
              (record row {
                retry_count = (row.retry_count + 1) % 2 ^ 32;
                status = failed_transient;
                updated_at = now;
              })
              s.rows;
      },
    )
  ]

  unfoldable pub mark_permanently_failed :
      ℕ → Url → Reason → LedgerState Url → Result (Unit {0}) × LedgerState Url
  unfolding get
  mark_permanently_failed now url reason s = elim (get url s) [
    | none ↦ (err (missing_row (api.as_str url)), s)
    | some row ↦ (
      ok tt,
      record s {
        rows =
            Map.insert (api.as_str url)
              (record row { status = permanently_failed; updated_at = now }) s.rows;
        dlq = s.dlq ++ (api.as_str url, reason) ∷ [];
      },
    )
  ]

  unfoldable pub mark_discovered_skipped :
      ℕ → Url → Text → ℕ → Option Url → LedgerState Url → LedgerState Url
  unfolding get
  mark_discovered_skipped now url run_id depth discovered_from s = record s {
    rows =
        Map.or_insert (api.as_str url) (new_row now url skipped depth run_id discovered_from)
          s.rows;
  }

module _ {Url : Type 0} where
  -- `publish` behind the lease of a batch.
  unfoldable pub settle :
      (List (OutboxEntry Url) → Result (Unit {0}))
      → OutboxState Url
      → List (OutboxEntry Url)
      → Result ℕ × OutboxState Url
  unfolding finalize_lease release_lease ids_of
  settle ship held [] = (ok 0, held)
  settle ship held (e ∷ es) = elim (ship (e ∷ es)) [
    | ok u ↦ (ok (length (e ∷ es)), finalize_lease (ids_of (e ∷ es)) held)
    | err x ↦ (err x, release_lease (ids_of (e ∷ es)) held)
    | panic ↦ (panic, held)
  ]

  -- `Outbox::publish`; `ship` is what the publisher does with the entries.
  unfoldable pub publish :
      ℕ
      → (List (OutboxEntry Url) → Result (Unit {0}))
      → OutboxState Url
      → Result ℕ × OutboxState Url
  unfolding lease_batch settle
  publish max ship s = settle ship (lease_batch max s).1 (lease_batch max s).0
