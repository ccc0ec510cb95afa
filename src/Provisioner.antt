-- ===== src/Provisioner.antt =====
-- internal/provisioner: the two backends that keep a daemon for each project, Kubernetes and a single host.
pub mod Retry
pub mod Kube
pub mod Local
pub mod Contract
