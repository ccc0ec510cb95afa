-- ===== src/Api.antt =====
-- The BuildProject API: api/v1alpha1. The types are in Types, the operations on them in the others.
pub mod Types
pub mod Inflight
pub mod Adaptive
pub mod Defaults
pub mod Derive
