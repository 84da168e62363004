-- ===== src/Scripts.antt =====
-- scripts/: the tools that change the tables.
pub mod Tranco
pub mod Tests
