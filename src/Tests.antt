-- ===== src/Tests.antt =====
-- The theorems at concrete inputs.
mod ListConsul
mod HealthRuns
mod MonitorRuns
mod EventRuns
mod StoreRuns
mod ActionRuns
mod HealthStore
mod SystemRuns
mod EvaluatorRuns
mod SubscriptionRuns
mod WaiterRuns
mod ValidatorRuns
mod ControllerRuns
mod AgentRuns
mod ClientRuns
mod ClusterRuns
mod ReachRuns
