-- ===== src/Mdoc.antt =====
-- internal/mdoc: ISO 18013-5 credentials.
pub mod Layout
pub mod Item
pub mod Cose
pub mod Builder
pub mod Digests
pub mod Signature
pub mod Signed
