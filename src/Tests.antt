-- ===== src/Tests.antt =====
-- Witnesses: each theorem with hypotheses at an input that meets them, and runs of the model.
mod Api
mod Router
mod Controller
mod Cluster
mod Edge
mod Service
mod Provisioner
mod Builder
mod Host
mod Tokens
mod Sidecar
