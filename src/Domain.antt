-- ===== src/Domain.antt =====
-- internal/domain: the records that the store, the scheduler and the escalation engine share.
-- An instant is a number of nanoseconds since an epoch before all of them; Go's `int` is ℤ where a
-- user sets it, and ℕ where the program only counts it up from 0.
pub mod Alert
pub mod Monitor
pub mod Escalation
pub mod Notification
