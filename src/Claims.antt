-- ===== src/Claims.antt =====
-- Signed claims, packages/sdk/src: the preimage that an issuer signs, and what a verifier accepts.
pub mod Types
pub mod Crypto
pub mod Layout
pub mod Encode
pub mod Decode
pub mod Verify
pub mod Shape
pub mod RoundTrip
pub mod Compare
pub mod Acceptance
mod Json
mod Tests
