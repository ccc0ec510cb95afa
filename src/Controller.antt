-- ===== src/Controller.antt =====
-- internal/controller: the reconciler of BuildProjects.
pub mod Autogrow
pub mod Effects
pub mod Elasticity
pub mod Fanout
pub mod Guards
pub mod Health
pub mod Inflight
pub mod Reconcile
pub mod Requeue
pub mod Roll
pub mod Snapshots
pub mod Status
