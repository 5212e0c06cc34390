-- ===== src/Escalation.antt =====
-- internal/escalation: the engine that turns the scheduler's alert events into alerts, notifications
-- and escalations.
pub mod World
pub mod Notify
pub mod Handlers
pub mod Tick
pub mod Frames
pub mod Gauge
pub mod Created
pub mod Messages
pub mod Ticks
pub mod Run
pub mod Progress
pub mod Pace
pub mod Races
mod Tests
pub mod Routing
pub mod Quiet
pub mod Acknowledged
pub mod Alerting
pub mod Recovery
