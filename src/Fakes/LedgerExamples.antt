-- ===== src/Fakes/LedgerExamples.antt =====
-- crates/crawlrs-fakes/src/metadata_store.rs: the theorems about the ledger and its outbox at
-- concrete inputs.
use crawlrs.Prelude.{ℕ, ◌≡◌, refl, List, [], ◌∷◌, nat_eq}
use crawlrs.Core.Error.{Result, ok, err, backend}
use crawlrs.Runtime.Effects.{SuccessRecord}
use crawlrs.Fakes.Outbox.{
  dedupe_key, finalize_lease, release_lease, empty_outbox, record_outbound, OutboxEntry,
  lease_batch, open_entries,
}
use crawlrs.Fakes.Ledger.{
  LedgerState, empty_ledger, get, mark_attempting, mark_succeeded, publish, settle,
}
use crawlrs.Fakes.Once.{mark_succeeded_once}
use crawlrs.Fakes.Shipments
use crawlrs.Fakes.Shipments.{OutboxEvent, records, publishes, shipped_ids, shipped_by}
use crawlrs.Fakes.Examples.{api, entry}
use crawlrs.Prelude.Map

abbrev success : SuccessRecord ℕ
success = record {
  url = 7;
  attempt_id = b'0' ∷ [];
  blob_path = b'p' ∷ [];
  content_hash = 42;
  outbound = entry 8 ∷ entry 9 ∷ [];
}

abbrev started : LedgerState ℕ
started = mark_attempting api 1 7 (b'r' ∷ []) 0 empty_ledger

recorded : (mark_succeeded api 2 success started).0 ≡ ok tt
unfolding mark_succeeded mark_attempting get Map.get Map.insert
recorded = refl

mark_succeeded_once_example :
    ((mark_succeeded api 3 success (mark_succeeded api 2 success started).1).0 ≡ ok tt)
    × ((mark_succeeded api 3 success (mark_succeeded api 2 success started).1).1.outbox
        ≡ (mark_succeeded api 2 success started).1.outbox)
    × ((mark_succeeded api 3 success
          (mark_succeeded api 2 success started).1).1.succeeded_history_count
        ≡ (mark_succeeded api 2 success started).1.succeeded_history_count)
mark_succeeded_once_example = mark_succeeded_once api 2 3 success started recorded

abbrev accepts : List (OutboxEntry ℕ) → Result (Unit {0})
accepts es = ok tt

abbrev fails_first : List (OutboxEvent ℕ)
fails_first =
    records 7 (b'0' ∷ []) (entry 8)
    ∷ publishes 5 (λ es. err (backend []))
    ∷ records 7 (b'0' ∷ []) (entry 9)
    ∷ publishes 1 accepts
    ∷ records 7 (b'0' ∷ []) (entry 8)
    ∷ publishes 5 accepts
    ∷ publishes 5 accepts
    ∷ []

both_shipped : shipped_ids api fails_first empty_outbox ≡ 1 ∷ 2 ∷ []
unfolding shipped_ids shipped_by Shipments.happens record_outbound publish settle lease_batch
    open_entries finalize_lease release_lease dedupe_key
both_shipped = refl
