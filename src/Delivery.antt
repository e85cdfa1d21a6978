-- ===== src/Delivery.antt =====
-- internal/delivery: retry and delivery orchestration.
pub mod Effects
pub mod Retry
pub mod Backoff
pub mod Processor
pub mod Worker
