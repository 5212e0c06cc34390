-- ===== src/Bus.antt =====
-- internal/bus: the in-process bus and its subjects.
pub mod Subjects
pub mod Matching
pub mod Channel
pub mod Publishing
mod Tests
