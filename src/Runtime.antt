-- ===== src/Runtime.antt =====
-- crates/crawlrs-runtime/src: the worker's pipeline, the failure categories, the supervisor and
-- the outbox publisher.
pub mod Effects
pub mod Failure
pub mod Outbound
pub mod Pipeline
pub mod Protocol
pub mod Commit
pub mod Order
pub mod WorkerLoop
pub mod Dispatch
pub mod Supervisor
pub mod Budget
pub mod Publisher
pub mod Shipping
pub mod Published
pub mod Examples
pub mod PublisherExamples
