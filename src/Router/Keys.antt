-- ===== src/Router/Keys.antt =====
-- The keys that `ProjectKey` and its companions derive, and which of them can meet.
pub mod Families
pub mod Seed
