-- ===== src/Router/Urls.antt =====
-- The ways in which a repository is written, and the one form that `NormalizeRepo` gives them.
pub mod Bytewise
pub mod Stages
pub mod Forms
pub mod Identity
