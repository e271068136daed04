-- ===== src/Verify.antt =====
-- crates/sigstore-verify: whether a bundle is a signature of an artifact.
pub mod Platform
pub mod Tlog
pub mod Helpers
pub mod Chain
pub mod Hashedrekord
pub mod Consistency
pub mod Content
pub mod Verifier
