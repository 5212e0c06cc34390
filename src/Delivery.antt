-- ===== src/Delivery.antt =====
-- internal/notify: the dispatcher of notification jobs and the workers that send them.
pub mod Dispatch
pub mod Worker
pub mod Duplicates
pub mod Outbox
pub mod Redelivery
pub mod Retries
mod Tests
