-- ===== src/EventBus.antt =====
-- internal/eventbus: the matching of subjects, and the in-process bus.
pub mod Subject
pub mod Memory
pub mod Nats
pub mod Bus
mod Examples
