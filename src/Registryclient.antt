-- ===== src/Registryclient.antt =====
-- internal/registryclient: the schemes that the attestation registry publishes.
pub mod Types
pub mod Client
pub mod Cache
pub mod Current
