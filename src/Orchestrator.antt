-- ===== src/Orchestrator.antt =====
pub mod Breaker
pub mod Limiter
pub mod Grade
pub mod Health
pub mod Dedup
pub mod Race
pub mod Session
pub mod Phases
