-- ===== src/Crypto.antt =====
-- src/crypto: the sealing of tokens and the checks of signed ones.
pub mod Seal
pub mod Jose
