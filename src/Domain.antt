-- ===== src/Domain.antt =====
-- src/core/domain: the enumerations, the value objects, the error fingerprint and the graph's state.
pub mod Enums
pub mod Signature
pub mod Models
pub mod State
