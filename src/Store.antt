-- ===== src/Store.antt =====
-- The configuration store of the cluster, and what it stands on.
pub mod Key
pub mod Services
pub mod KvStore
pub mod ClusterStop
