-- ===== src/Core.antt =====
-- packages/core/src: the types, rules and derivations that the API and the web application share.
pub mod Enums
pub mod Metrics
pub mod Matching
pub mod Recommendations
pub mod Identity
pub mod Creative
pub mod Format
mod Tests
