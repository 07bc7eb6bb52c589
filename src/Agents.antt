-- ===== src/Agents.antt =====
-- The resource agents that Pacemaker calls (ha/resource).
pub mod Alerts
