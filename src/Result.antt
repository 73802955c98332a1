-- ===== src/Result.antt =====
-- Go's results: internal/oauth2/error.go, and the state that a method changes on either way out.
pub mod Exec
pub mod Raises
pub mod Ensures
pub mod Leaves
