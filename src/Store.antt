-- ===== src/Store.antt =====
-- internal/store/sqlite: the tables that the escalation engine reads and writes, as lists of rows.
-- A query is the function that its SQL describes, constraints of the schema included.
pub mod Time
pub mod Alerts
pub mod AlertLaws
pub mod AlertIndex
pub mod Policies
