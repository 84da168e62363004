-- ===== src/Api.antt =====
-- api/: the administrator's lists and the links between accounts.
pub mod Admin
pub mod Me
pub mod Check
pub mod Deep
pub mod Events
pub mod Tests
pub mod Auth
pub mod Accounts
pub mod Push
pub mod Report
