-- ===== src/Pcs.antt =====
-- The wrapper of pcs (ha/pcswrap/pcswrap).
pub mod Waiter
pub mod Client
