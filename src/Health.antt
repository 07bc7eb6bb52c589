-- ===== src/Health.antt =====
-- ha/core/system_health: the health of the cluster's elements.
pub mod Event
pub mod EntityHealth
pub mod StatusMapper
pub mod Rules
pub mod Hierarchy
pub mod Keys
pub mod Updates
pub mod System
pub mod Evaluators
