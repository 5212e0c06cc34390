-- ===== src/Keys.antt =====
-- internal/auth/jwks: the keys that sign tokens, their rotation, and the set that verifiers fetch.
pub mod Store
pub mod Manager
pub mod Serving
pub mod Rows
pub mod Listed
pub mod Transitions
pub mod Sweeps
pub mod Rotation
pub mod Freshness
pub mod Liveness
mod Tests
