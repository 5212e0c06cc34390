-- ===== src/Checker.antt =====
-- internal/checker: the scheduler, which runs the checks and reports the changes of status.
pub mod Rules
pub mod Model
pub mod Judge
pub mod Verdict
pub mod Scheduler
pub mod Heartbeat
pub mod Runners
pub mod Resync
pub mod Outages
pub mod Misses
mod Tests
