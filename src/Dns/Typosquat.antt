-- ===== src/Dns/Typosquat.antt =====
-- dns_server/typosquat.py
pub mod Levenshtein
pub mod Boundary
pub mod Labels
pub mod Detector
pub mod Tests
