-- ===== src/Crypto.antt =====
-- crates/sigstore-crypto: keys, signatures and certificates.
pub mod Error
pub mod Signing
pub mod Verification
pub mod Checkpoint
pub mod X509
