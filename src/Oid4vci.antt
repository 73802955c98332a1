-- ===== src/Oid4vci.antt =====
-- internal/oid4vci: the offer, the credential request and the key proof.
pub mod Messages
pub mod Proof
pub mod Metadata
