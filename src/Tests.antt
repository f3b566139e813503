-- ===== src/Tests.antt =====
-- Runs of the models on concrete inputs, and each theorem at an input that meets its hypotheses.
mod Breaker
mod Limiter
mod Keys
mod Dedup
mod Race
mod Session
mod MemoryCache
mod Accounts
mod Resting
mod Health
mod Api
mod Admin
mod Codec
mod Scraping
mod Lrc
mod Watchdog
mod QqCrypto
mod WriteQueue
mod Similarity
mod Kpoe
mod Pow
mod Service
mod Merger
mod Filename
