-- ===== src/Rekor.antt =====
-- crates/sigstore-rekor: the entries of the transparency log.
pub mod Body
pub mod Entry
pub mod Client
