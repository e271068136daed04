-- ===== src/Merkle/Spec.antt =====
-- What the Merkle proofs of crates/sigstore-merkle are about: the tree of RFC 6962, its root and
-- its audit paths, once by levels and once by the RFC's recursion on a tree.
pub mod Tree
pub mod Levels
pub mod Agree
pub mod Rfc
pub mod Collisions
