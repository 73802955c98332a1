-- ===== src/Tests.antt =====
-- A small world in which the theorems are applied, and the applications.
pub mod World
pub mod Tokens
pub mod StatusLists
pub mod Issuances
mod Requests
mod Credentials
mod Registries
mod Endpoints
mod Databases
