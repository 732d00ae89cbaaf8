-- ===== src/Runtime/Publisher.antt =====
-- crates/crawlrs-runtime/src/outbox.rs: the outbox publisher, between the in-memory outbox, frontier
-- and ledger of crates/crawlrs-fakes. The clock is an argument of each batch.
use crawlrs.Prelude.{ℕ, Bool, List, [], ◌∷◌, map, if◌then◌else◌}
use crawlrs.Core.Error.{Text, Result, ok, err, panic}
use crawlrs.Core.Types.{UrlApi, UrlEntry, SubmitBatchOutcome}
use crawlrs.Fakes.Frontier
use crawlrs.Fakes.Frontier.{InMemoryFrontier, FrontierState}
use crawlrs.Fakes.Outbox.{OutboxEntry, OutboxState, lease_batch}
use crawlrs.Fakes.Ledger
use crawlrs.Fakes.Ledger.{LedgerState}

-- The components behind the publisher's calls while it ships.
pub record Sinks (Url : Type 0) : Type 0 where
  pub frontier_state : FrontierState Url
  pub ledger : LedgerState Url

abbrev pub default_batch_size : ℕ
default_batch_size = 256

module _ {Url : Type 0} (api : UrlApi Url) (f : InMemoryFrontier Url) (run_id : Text) where
  -- The URLs over their quota are recorded as skipped; the in-memory ledger never fails here.
  unfoldable pub mark_rejected : ℕ → List (UrlEntry Url) → LedgerState Url → LedgerState Url
  mark_rejected now [] l = l
  mark_rejected now (e ∷ es) l =
      mark_rejected now es
        (Ledger.mark_discovered_skipped api now e.url run_id e.depth e.discovered_from l)

  -- What the `ShipFn` does behind its call of `submit_batch`.
  unfoldable pub on_submitted :
      ℕ
      → LedgerState Url
      → Result (SubmitBatchOutcome Url) × FrontierState Url
      → Result (Unit {0}) × Sinks Url
  unfolding mark_rejected
  on_submitted now l (ok outcome, st) =
      (ok tt, record { frontier_state = st; ledger = mark_rejected now outcome.rejected_urls l })
  on_submitted now l (err e, st) = (err e, record { frontier_state = st; ledger = l })
  on_submitted now l (panic, st) = (panic, record { frontier_state = st; ledger = l })

  -- The `ShipFn` that the publisher builds.
  unfoldable pub ship : ℕ → List (OutboxEntry Url) → Sinks Url → Result (Unit {0}) × Sinks Url
  unfolding on_submitted
  ship now entries w =
      on_submitted now w.ledger
        (Frontier.submit_batch api f now (map (λ e. e.entry) entries) w.frontier_state)

  -- `publish` calls the `ShipFn` only for a batch that is not empty.
  unfoldable pub shipped : ℕ → List (OutboxEntry Url) → Sinks Url → Sinks Url
  unfolding ship
  shipped now [] w = w
  shipped now (e ∷ es) w = (ship now (e ∷ es) w).1

  -- The number of rows that were shipped: none if the publish failed.
  abbrev pub progress : Result ℕ → Result ℕ
  progress (ok n) = ok n
  progress (err e) = ok 0
  progress panic = panic

  unfoldable pub publish_one_batch :
      ℕ → ℕ → OutboxState Url → Sinks Url → Result ℕ × OutboxState Url × Sinks Url
  unfolding shipped
  publish_one_batch now batch_size s w =
      let (r, s') = Ledger.publish batch_size (λ es. (ship now es w).0) s in
      (progress r, s', shipped now (lease_batch batch_size s).0 w)

  -- One turn of the loop: when it runs, and whether the shutdown is seen before the next one.
  pub record Turn : Type 0 where
    pub now : ℕ
    pub stops : Bool

  -- The loop of `outbox_publisher` and the batch behind it, at the time `last`. A turn that ships a
  -- full batch goes on at once, any other sleeps first; a panic ends the task.
  unfoldable pub outbox_publisher :
      List Turn → ℕ → OutboxState Url → Sinks Url → Result ℕ × OutboxState Url × Sinks Url
  unfolding publish_one_batch
  outbox_publisher [] last s w = publish_one_batch last default_batch_size s w
  outbox_publisher (t ∷ ts) last s w =
      let (r, s', w') = publish_one_batch t.now default_batch_size s w in
      let final = publish_one_batch last default_batch_size s' w' in
      let more = outbox_publisher ts last s' w' in
      elim r [
        | ok n ↦ if t.stops then final else more
        | err e ↦ (err e, s', w')
        | panic ↦ (panic, s', w')
      ]
