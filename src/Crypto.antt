-- ===== src/Crypto.antt =====
-- internal/crypto: the issuer's signing key and where it comes from.
pub mod Keys
pub mod Loader
