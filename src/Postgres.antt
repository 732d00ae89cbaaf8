-- ===== src/Postgres.antt =====
-- crates/crawlrs-metadata: the ledger and the outbox on Postgres.
pub mod Tables
pub mod Transactions
pub mod Store
pub mod Publish
pub mod Requests
pub mod Atomic
pub mod Answered
pub mod Mirror
pub mod Agreement
pub mod Attempting
pub mod Succeeding
pub mod Failing
pub mod Skipping
pub mod Refinement
pub mod Constraints
pub mod Children
pub mod Redelivery
pub mod Keeping
pub mod Again
pub mod Batch
pub mod Settled
pub mod Examples
