-- ===== src/Maintenance.antt =====
-- internal/maintenance and internal/domain/maintenance.go: maintenance windows and their ticker.
pub mod Window
pub mod Ticker
pub mod Observed
pub mod Lifecycle
pub mod Current
pub mod Midnight
mod Tests
