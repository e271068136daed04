-- ===== src/Merkle/Inclusion.antt =====
-- `verify_inclusion_proof` of crates/sigstore-merkle/src/proof.rs.
pub mod Length
pub mod Levels
pub mod Sound
pub mod Correct
pub mod Bound
use mathlib.Core.Logic.{dite}
use mathlib.Core.WellFounded.{Acc}
use sigstore_rust.Common.{
  ℕ, zero, suc, ◌+◌, ◌-◌, ◌/◌, ◌%◌, ◌<◌, List, [], ◌∷◌, Bool, ◌&&◌, ◌||◌, not, Bytes, bytes_eq,
  length, ltb, leb, ◌==◌, if◌then◌else◌, dec_lt, arith,
}
use sigstore_rust.Common.Order.{lt_wf}
use sigstore_rust.Common.Fallible.{ok, err}
use sigstore_rust.Merkle.Error.{
  Error, invalid_proof, invalid_tree_size, invalid_leaf_index, hash_mismatch, Result,
}
use sigstore_rust.Merkle.Tree.{Sha256Hash, hash_children}

pub next_size-lt : (size : ℕ) → 1 < size → size / 2 + size % 2 < size
next_size-lt size h = omega arith

-- The `while size > 1` loop: the level's size goes down to half, rounded up.
unfoldable pub expected_length_loop : (count index size : ℕ) → Acc ◌<◌ size → ℕ
expected_length_loop count index size (Acc.intro _ smaller) =
    dite (dec_lt 1 size)
      (λ more.
        expected_length_loop (if not (size % 2 == 1 && index == size - 1) then count + 1 else count)
          (index / 2) (size / 2 + size % 2) (smaller _ (next_size-lt size more)))
      (λ _. count)

unfoldable pub expected_inclusion_proof_length : ℕ → ℕ → ℕ
unfolding expected_length_loop lt_wf
expected_inclusion_proof_length leaf_index tree_size =
    if leb tree_size 1
    then 0
    else expected_length_loop 0 leaf_index tree_size (lt_wf.apply tree_size)

module _ (sha256 : Bytes → Sha256Hash) where
  -- The body of the loop over the proof: an odd index or the last node has its sibling on the left.
  unfoldable pub inclusion_step : Sha256Hash → ℕ → ℕ → Sha256Hash → Sha256Hash
  inclusion_step hash index last_node proof_hash =
      if index % 2 == 1 || index == last_node
      then hash_children sha256 proof_hash hash
      else hash_children sha256 hash proof_hash

  unfoldable pub inclusion_loop : Sha256Hash → ℕ → ℕ → List Sha256Hash → Sha256Hash
  inclusion_loop hash index last_node [] = hash
  inclusion_loop hash index last_node (proof_hash ∷ rest) =
      inclusion_loop (inclusion_step hash index last_node proof_hash) (index / 2) (last_node / 2)
        rest

  unfoldable pub verify_inclusion_proof :
      Sha256Hash → ℕ → ℕ → List Sha256Hash → Sha256Hash → Result (Unit {0})
  verify_inclusion_proof leaf_hash leaf_index tree_size proof_hashes expected_root =
      let hash = inclusion_loop leaf_hash leaf_index (tree_size - 1) proof_hashes in
      if tree_size == 0
      then err invalid_tree_size
      else if leb tree_size leaf_index
      then err invalid_leaf_index
      else if not (length proof_hashes == expected_inclusion_proof_length leaf_index tree_size)
      then err invalid_proof
      else if not (bytes_eq hash expected_root)
      then err (hash_mismatch expected_root hash)
      else ok tt
