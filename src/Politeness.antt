-- ===== src/Politeness.antt =====
-- crates/crawlrs-politeness: how the crawler behaves towards a host.
pub mod Backoff
pub mod Composite
pub mod Circuit
pub mod Robots
pub mod Remembered
pub mod RobotsExamples
pub mod Examples
