-- ===== src/Types.antt =====
-- crates/sigstore-types: the data that signing and verification exchange.
pub mod Error
pub mod Text
pub mod Encoding
pub mod Checkpoint
pub mod Artifact
pub mod Dsse
pub mod Bundle
