-- ===== src/Core.antt =====
-- crates/crawlrs-core: the domain types and the policies that the other parts share.
pub mod Error
pub mod Types
pub mod Ascii
pub mod Url
pub mod Scope
pub mod Sharding
pub mod UrlId
pub mod Escapes
pub mod Canonical
pub mod EscapesExamples
pub mod Decimal
