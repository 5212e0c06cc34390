-- ===== src/Reply.antt =====
-- internal/cloudevents/reply: the replies of downstream systems to outbound events.
pub mod RateLimiter
pub mod LimiterBounds
pub mod LimiterCalls
pub mod LimiterCap
pub mod LimiterState
pub mod LimiterSweep
pub mod Registry
pub mod RegistryLaws
pub mod Correlation
pub mod Dispatcher
pub mod Authority
pub mod Audits
pub mod Clamps
pub mod Budget
mod Tests
