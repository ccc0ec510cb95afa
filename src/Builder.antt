-- ===== src/Builder.antt =====
-- internal/builder/statefulset.go: the objects of a project's daemon.
pub mod Objects
pub mod Settings
pub mod Container
pub mod Render
pub mod Wiring
pub mod Trust
pub mod Selection
