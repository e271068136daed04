-- ===== src/Merkle.antt =====
-- crates/sigstore-merkle: RFC 6962 hashing, and the checks of inclusion and consistency proofs.
pub mod Error
pub mod Tree
pub mod Inclusion
pub mod Consistency
pub mod Spec
