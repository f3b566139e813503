-- ===== src/Parsers.antt =====
-- The formats of lyrics (internal/parsers).
pub mod Kpoe
pub mod Lrc
