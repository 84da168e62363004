-- ===== src/Dns.antt =====
-- dns_server/: the filtering resolver.
pub mod Typosquat
pub mod Cache
pub mod Db
pub mod Upstream
pub mod Resolver
pub mod Refresh
pub mod Servers
pub mod Tests
