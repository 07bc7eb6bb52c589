-- ===== src/Events.antt =====
-- ha/core/event_analyzer: filters and parsers of messages, and the watcher that joins them.
pub mod Attrs
pub mod Filter
pub mod Parser
pub mod Watcher
