-- ===== src/Maintenance/Midnight.antt =====
-- internal/domain/maintenance.go: recurring windows and the end of the day.
