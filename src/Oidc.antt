-- ===== src/Oidc.antt =====
-- internal/cloudevents/oidc: the verifiers of tokens.
pub mod Cache
pub mod Pinning
mod Tests
