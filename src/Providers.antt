-- ===== src/Providers.antt =====
-- internal/providers: what the providers share beside their HTTP clients.
pub mod Accounts
pub mod QqCrypto
pub mod Challenge
pub mod Vandalism
