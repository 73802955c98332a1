-- ===== src/Oauth2.antt =====
-- internal/oauth2: DPoP proofs and what guards them.
pub mod Jti
pub mod Fold
pub mod Dpop
