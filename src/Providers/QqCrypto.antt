-- ===== src/Providers/QqCrypto.antt =====
-- internal/providers/qqmusic_crypto.go: the cipher of QQ Music's lyrics, a variant of triple DES.
-- A uint32 and a uint8 are numbers below 2 ^ 32 and 2 ^ 8; a block is a list of eight bytes.
pub mod Tables
pub mod Cipher
pub mod Schedule
pub mod Feistel
pub mod Permutations
pub mod Inverse
pub mod Qrc
