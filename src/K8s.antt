-- ===== src/K8s.antt =====
-- ha/monitor/k8s: the monitor that turns Kubernetes watch events into health alerts.
pub mod Alert
pub mod Parser
pub mod Monitor
