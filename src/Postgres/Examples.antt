-- ===== src/Postgres/Examples.antt =====
-- crates/crawlrs-metadata: the theorems about the Postgres ledger at concrete inputs. A URL is a
-- number on the host "a".
use crawlrs.Prelude.{
  ℕ, ◌^◌, ◌≡◌, refl, List, [], ◌∷◌, Option, none, some, arith, ap, list_eq, nat_eq,
}
use crawlrs.Prelude.Map
use crawlrs.Core.Error.{Text, ok, timeout}
use crawlrs.Core.Types.{SkipReason}
use crawlrs.Runtime.Effects.{SuccessRecord, http_status}
use crawlrs.Fakes.Examples.{api, entry}
use crawlrs.Core.Types.SkipReason.{robots}
use crawlrs.Fakes.Ledger
use crawlrs.Postgres.Tables
use crawlrs.Postgres.Tables.{Database, OutboxRow}
use crawlrs.Postgres.Transactions
use crawlrs.Postgres.Transactions.{Call, answered, refused, unanswered}
use crawlrs.Postgres.Store
use crawlrs.Postgres.Publish
use crawlrs.Postgres.Requests.{Request, attempting, succeeds, fails, dies, skips, answer}
use crawlrs.Postgres.Atomic.{AllOrNothing, answer-AllOrNothing}
use crawlrs.Postgres.Mirror.{remember}
use crawlrs.Postgres.Refinement.{run, remember_all, AllFit, history-Refines}
use crawlrs.Postgres.Again.{meanwhile, mark_succeeded_again}
use crawlrs.Postgres.Batch.{Takes}
use crawlrs.Postgres.Settled.{Settles, publish-Settles}

abbrev parse : Text → Option ℕ
parse [] = none
parse (u ∷ []) = some u
parse (u ∷ v ∷ t) = none

abbrev empty_db : Database
empty_db = record {
  tables = record { url_metadata = []; url_history = []; frontier_outbox = [] };
  url_seq = 0;
  outbox_seq = 0;
}

abbrev success : SuccessRecord ℕ
success = record {
  url = 7;
  attempt_id = b'x' ∷ [];
  blob_path = b'p' ∷ [];
  content_hash = 2 ^ 63;
  outbound = entry 8 ∷ entry 9 ∷ [];
}

-- A URL that is being attempted, and behind it its success with two links.
abbrev attempted_db : Database
attempted_db = (answer api 1 (attempting 7 (b'r' ∷ []) 0) [] empty_db).2

abbrev linked_db : Database
linked_db = (answer api 2 (succeeds success) [] attempted_db).2

answer-AllOrNothing_example :
    AllOrNothing attempted_db (answer api 2 (succeeds success) [] attempted_db) (
      answer api 2
        (succeeds success)
        (answered ∷ answered ∷ answered ∷ refused [] ∷ [])
        attempted_db)
answer-AllOrNothing_example =
    answer-AllOrNothing api 2 (succeeds success) (answered ∷ answered ∷ answered ∷ refused [] ∷ [])
      attempted_db

abbrev requests : List (ℕ × Request ℕ)
requests =
    (1, attempting 7 (b'r' ∷ []) 0)
    ∷ (2, fails 7 timeout)
    ∷ (3, attempting 7 (b'r' ∷ []) 0)
    ∷ (4, succeeds success)
    ∷ (5, skips 8 (b'r' ∷ []) 1 (some 7) SkipReason.depth)
    ∷ (6, dies 9 (http_status 404))
    ∷ []

requests-Fit : AllFit api parse requests Ledger.empty_ledger
unfolding remember Ledger.mark_attempting Ledger.mark_failed Ledger.mark_succeeded Ledger.succeed
    Ledger.get Ledger.record_history Ledger.record_children Map.get Map.insert
requests-Fit =
    (omega arith, (omega arith, (omega arith, (omega arith, ((omega arith, refl), (tt, tt))))))

first_of : Text → ℕ
first_of [] = 0
first_of (u ∷ t) = u

history-Refines_example :
    let p = remember_all api parse requests Ledger.empty_ledger in
    ((run api parse requests empty_db).0 ≡ p.0)
    × ((Store.get api parse 7 [] (run api parse requests empty_db).1).0 ≡ ok (Ledger.get api 7 p.1))
unfolding first_of
history-Refines_example =
    history-Refines api parse requests empty_db 7 refl requests-Fit (λ u v e. ap first_of e)

success_returned : (Store.mark_succeeded api 2 success [] attempted_db).0 ≡ ok tt
unfolding answer Store.mark_attempting Store.mark_succeeded Store.succeeded_body
    Store.insert_children Store.parent_text Transactions.transaction Transactions.begin
    Transactions.finish Transactions.commit Transactions.execute Tables.upsert_attempting
    Tables.update_succeeded Tables.insert_history Tables.insert_outbox_row Tables.has_attempt
    Tables.same_attempt Tables.has_child Map.get Map.insert
success_returned = refl

-- The URL is handed out again: its attempt is recorded, a failure cannot be, and a link is skipped.
abbrev between : List (ℕ × Request ℕ × Transactions.Calls)
between =
    (5, attempting 7 [] 0, [])
    ∷ (6, fails 7 timeout, answered ∷ refused [] ∷ [])
    ∷ (7, skips 9 [] 1 none robots, unanswered [] ∷ [])
    ∷ []

mark_succeeded_again_example :
    let before = meanwhile api between (Store.mark_succeeded api 2 success [] attempted_db).2 in
    let again = Store.mark_succeeded api 9 success [] before in
    (again.0 ≡ ok tt)
    × (again.2.tables.url_history ≡ before.tables.url_history)
    × (again.2.tables.frontier_outbox ≡ before.tables.frontier_outbox)
mark_succeeded_again_example =
    mark_succeeded_again api 2 9 success between attempted_db success_returned

publish-Settles_example :
    (rows : List OutboxRow) × Takes (2 ∷ []) 10 linked_db.tables.frontier_outbox rows
    × Settles parse
        (λ es. ok tt)
        rows
        linked_db
        (Publish.publish parse (2 ∷ []) 10 (λ es. ok tt) (answered ∷ unanswered [] ∷ []) linked_db)
publish-Settles_example =
    publish-Settles parse (λ es. ok tt) (2 ∷ []) 10 (answered ∷ unanswered [] ∷ []) linked_db

-- One link is locked, the other is shipped.
linked_published : (Publish.publish parse (2 ∷ []) 10 (λ es. ok tt) [] linked_db).0 ≡ ok 1
unfolding answer Store.mark_attempting Store.mark_succeeded Store.succeeded_body
    Store.insert_children Store.parent_text Transactions.transaction Transactions.begin
    Transactions.finish Transactions.commit Transactions.execute Tables.upsert_attempting
    Tables.update_succeeded Tables.insert_history Tables.insert_outbox_row Tables.has_attempt
    Tables.same_attempt Tables.has_child Map.get Map.insert Publish.publish Publish.publish_body
    Publish.ship_rows Publish.ship_entries Publish.entries_of Publish.entry_of Publish.parent_of
    Publish.select_open Publish.open_rows Publish.update_published Publish.set_published
    Publish.finish_publish
linked_published = refl
