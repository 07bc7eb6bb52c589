-- ===== src/Manager.antt =====
-- ha/core/event_manager: the subscriptions of components to events, and the publishing of events.
pub mod Lists
pub mod Subscriptions
pub mod Service
