-- ===== src/Actions.antt =====
-- What is done about a health event: the rules, the handlers and the service that applies them.
pub mod Rules
pub mod Handlers
pub mod Service
