-- ===== src/Tuf.antt =====
-- crates/sigstore-tuf: the client side of The Update Framework.
pub mod Error
pub mod Json
pub mod Key
pub mod Metadata
pub mod Trusted
pub mod Client
