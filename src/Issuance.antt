-- ===== src/Issuance.antt =====
-- internal/issuance: the issuance records, the status list and the service over them.
pub mod Record
pub mod Interface
pub mod Store
pub mod Memory
pub mod Postgres
pub mod ListSize
pub mod Listing
pub mod State
pub mod Formats
pub mod Service
