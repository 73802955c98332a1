-- ===== src/Sdjwt.antt =====
-- internal/sdjwt: SD-JWT credentials.
pub mod Disclosure
pub mod Builder
pub mod Presented
