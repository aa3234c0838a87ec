-- ===== src/Controllers.antt =====
-- The controllers of pkg/controllers.
pub mod Client
pub mod Frame
pub mod Generate
pub mod Validate
pub mod Apply
pub mod Delete
pub mod Status
pub mod Reconcile
pub mod ClusterEvents
