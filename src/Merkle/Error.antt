-- ===== src/Merkle/Error.antt =====
-- crates/sigstore-merkle/src/error.rs. The texts that the variants carry are left out.
use sigstore_rust.Common.Fallible
use sigstore_rust.Merkle.Tree.{Sha256Hash}

pub data Error : Type 0 where
  invalid_proof verification_failed invalid_tree_size invalid_leaf_index base64 : Error
  hash_mismatch : Sha256Hash → Sha256Hash → Error

abbrev pub Result {ℓ} : Type ℓ → Type ℓ
Result A = Fallible.Result Error A
