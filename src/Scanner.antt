-- ===== src/Scanner.antt =====
-- ai_scanner/: the scanner that classifies pages.
pub mod Heuristics
pub mod Ai
pub mod Store
pub mod Rdap
pub mod Worker
pub mod Control
pub mod Tests
