-- ===== src/Tests.antt =====
-- Concrete runs, and the theorems at concrete inputs.
mod Merkle
mod Tuf
pub mod Client
pub mod Json
mod Sample
mod Verify
mod Sign
mod Services
mod Checkpoint
