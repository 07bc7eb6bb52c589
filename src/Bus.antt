-- ===== src/Bus.antt =====
-- ha/util/message_bus.py and the consumers of messages.
pub mod Consumer
