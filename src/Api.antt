-- ===== src/Api.antt =====
-- The HTTP API (internal/api).
pub mod Admin
pub mod Client
pub mod Gate
pub mod Limit
pub mod Scraping
pub mod Pow
