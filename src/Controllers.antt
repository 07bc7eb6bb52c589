-- ===== src/Controllers.antt =====
-- The controllers of ha/core/controllers/pcs.
pub mod Shell
pub mod NodeStatuses
pub mod Pcs
pub mod Status
pub mod NodeId
pub mod Node
pub mod Cluster
