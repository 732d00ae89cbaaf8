-- ===== src/Fakes.antt =====
-- crates/crawlrs-fakes: the in-memory protocol models of the frontier and of the ledger.
pub mod Shard
pub mod Rules
pub mod Accounting
pub mod Delivery
pub mod Liveness
pub mod Progress
pub mod Exclusion
pub mod Reservation
pub mod Reserved
pub mod Attempt
pub mod Frontier
pub mod Reclaim
pub mod Lift
pub mod Histories
pub mod Totality
pub mod Admission
pub mod Outbox
pub mod Ledger
pub mod Once
pub mod Publish
pub mod Shipments
pub mod Examples
pub mod LedgerExamples
