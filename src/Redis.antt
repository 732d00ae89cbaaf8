-- ===== src/Redis.antt =====
-- crates/crawlrs-frontier: the frontier on Redis, its Lua scripts, and its relation to the
-- in-memory frontier.
pub mod Api
pub mod Keys
pub mod Scripts
pub mod Views
pub mod Commands
pub mod Claim
pub mod Submit
pub mod Batch
pub mod Wake
pub mod Promotion
pub mod Leases
pub mod Reclaim
pub mod Histories
pub mod Overlap
pub mod Attempt
pub mod Reply
pub mod Parsing
pub mod Ops
pub mod Frontier
pub mod Sending
pub mod Service
pub mod SortedSet
pub mod Memory
