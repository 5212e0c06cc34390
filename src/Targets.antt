-- ===== src/Targets.antt =====
-- internal/checker/ssrf.go and ssrf_dialer.go: which hosts a monitor or a delivery may reach.
pub mod Address
pub mod Notation
pub mod Validation
pub mod Ranges
pub mod Encodings
mod Tests
