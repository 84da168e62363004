-- ===== src/Scraper.antt =====
-- social_scraper/: the scraper that looks for scam links in posts and feeds.
pub mod Extract
pub mod Worker
pub mod Control
pub mod Tests
