-- ===== src/Merkle/Tree.antt =====
-- crates/sigstore-merkle/src/tree.rs.
use sigstore_rust.Common.{Bytes, ◌∷◌, ◌++◌, ℕ}

-- A `[u8; 32]`; theorems that need the width say so.
abbrev pub Sha256Hash : Type 0
Sha256Hash = Bytes

abbrev pub leaf_hash_prefix : ℕ
leaf_hash_prefix = 0x00

abbrev pub node_hash_prefix : ℕ
node_hash_prefix = 0x01

module _ (sha256 : Bytes → Sha256Hash) where
  unfoldable pub hash_leaf : Bytes → Sha256Hash
  hash_leaf input = sha256 (leaf_hash_prefix ∷ input)

  unfoldable pub hash_children : Sha256Hash → Sha256Hash → Sha256Hash
  hash_children left right = sha256 (node_hash_prefix ∷ (left ++ right))
