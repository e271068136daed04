-- ===== src/Merkle/Consistency.antt =====
-- `verify_consistency_proof` of crates/sigstore-merkle/src/proof.rs. `x & 1` is `x % 2`, and
-- `1 << shift` is `2 ^ shift`: a shift below 64, since the old size is not 0.
pub mod Chains
pub mod Prefix
pub mod Growth
pub mod AppendOnly
pub mod Accepts
pub mod Complete
use Prim.Native.Nat.{bit_xor}
use sigstore_rust.Common.{
  ℕ, zero, suc, ◌+◌, ◌-◌, ◌%◌, ◌^◌, List, [], ◌∷◌, Bool, true, false, ◌&&◌, not, Bytes, bytes_eq,
  length, take, drop, is_empty, ltb, ◌==◌, if◌then◌else◌,
}
use sigstore_rust.Common.Bits.{
  shift_right, leading_zeros, trailing_zeros, count_ones, checked_shr_or_zero,
}
use sigstore_rust.Common.Fallible.{ok, err, ◌>>=◌, ◌>>◌, ensure}
use sigstore_rust.Merkle.Error.{
  Error, invalid_proof, verification_failed, invalid_tree_size, hash_mismatch, Result,
}
use sigstore_rust.Merkle.Tree.{Sha256Hash, hash_children}

unfoldable pub inner_proof_size : (index tree_size : ℕ) → ℕ
inner_proof_size index tree_size = 64 - leading_zeros 64 (bit_xor index (tree_size - 1))

unfoldable pub decompose_inclusion_proof : (index tree_size : ℕ) → ℕ × ℕ
unfolding inner_proof_size
decompose_inclusion_proof index tree_size =
    let inner = inner_proof_size index tree_size in
    (inner, count_ones 64 (checked_shr_or_zero index inner))

-- The first hash, and where the rest of the proof starts.
unfoldable pub seed_and_start :
    (is_power : Bool) → Sha256Hash → List Sha256Hash → Result (Sha256Hash × ℕ)
seed_and_start true old_root proof_hashes = ok (old_root, 0)
seed_and_start false old_root [] = err invalid_proof
seed_and_start false old_root (proof_hash ∷ rest) = ok (proof_hash, 1)

module _ (sha256 : Bytes → Sha256Hash) where
  -- The loop's body at the bit `i` of the index.
  unfoldable pub inner_step : Sha256Hash → ℕ → ℕ → Sha256Hash → Sha256Hash
  inner_step hash index i p =
      if shift_right index i % 2 == 0
      then hash_children sha256 hash p
      else hash_children sha256 p hash

  unfoldable pub inner_loop : Sha256Hash → ℕ → ℕ → List Sha256Hash → Sha256Hash
  unfolding inner_step
  inner_loop hash index i [] = hash
  inner_loop hash index i (p ∷ rest) = inner_loop (inner_step hash index i p) index (suc i) rest

  abbrev pub chain_inner : Sha256Hash → List Sha256Hash → ℕ → Sha256Hash
  chain_inner seed proof index = inner_loop seed index 0 proof

  unfoldable pub inner_right_step : Sha256Hash → ℕ → ℕ → Sha256Hash → Sha256Hash
  inner_right_step hash index i p =
      if shift_right index i % 2 == 1 then hash_children sha256 p hash else hash

  unfoldable pub inner_right_loop : Sha256Hash → ℕ → ℕ → List Sha256Hash → Sha256Hash
  unfolding inner_right_step
  inner_right_loop hash index i [] = hash
  inner_right_loop hash index i (p ∷ rest) =
      inner_right_loop (inner_right_step hash index i p) index (suc i) rest

  abbrev pub chain_inner_right : Sha256Hash → List Sha256Hash → ℕ → Sha256Hash
  chain_inner_right seed proof index = inner_right_loop seed index 0 proof

  unfoldable pub chain_border_right : Sha256Hash → List Sha256Hash → Sha256Hash
  chain_border_right hash [] = hash
  chain_border_right hash (p ∷ rest) = chain_border_right (hash_children sha256 p hash) rest

  -- Both roots from the seed and the rest of the proof, compared with those given.
  unfoldable pub verify_chains :
      (seed : Sha256Hash) (proof : List Sha256Hash) (inner mask : ℕ)
      (old_root new_root : Sha256Hash)
      → Result (Unit {0})
  unfolding inner_loop inner_right_loop chain_border_right
  verify_chains seed proof inner mask old_root new_root = do
    let hash1 = chain_inner_right seed (take inner proof) mask
    let calc_old_root = chain_border_right hash1 (drop inner proof)
    let hash2 = chain_inner seed (take inner proof) mask
    let calc_new_root = chain_border_right hash2 (drop inner proof)
    ensure (bytes_eq calc_old_root old_root) verification_failed
    ensure (bytes_eq calc_new_root new_root) verification_failed

  -- The normal case: the old tree is not empty, and the new one is larger.
  unfoldable pub verify_growth :
      (old_size new_size : ℕ)
      → List Sha256Hash
      → (old_root new_root : Sha256Hash) → Result (Unit {0})
  unfolding decompose_inclusion_proof seed_and_start verify_chains
  verify_growth old_size new_size proof_hashes old_root new_root =
      let shift = trailing_zeros 64 old_size in
      let sizes = decompose_inclusion_proof (old_size - 1) new_size in
      let inner = sizes.0 - shift in
      do
        ensure (not (is_empty proof_hashes)) invalid_proof
        (seed, start) ← seed_and_start (old_size == 2 ^ shift) old_root proof_hashes
        ensure (length proof_hashes == start + inner + sizes.1) invalid_proof
        verify_chains seed (drop start proof_hashes) inner (shift_right (old_size - 1) shift)
            old_root new_root

  unfoldable pub verify_same_size :
      List Sha256Hash → (old_root new_root : Sha256Hash) → Result (Unit {0})
  verify_same_size proof_hashes old_root new_root = do
    ensure (bytes_eq old_root new_root) (hash_mismatch old_root new_root)
    ensure (is_empty proof_hashes) invalid_proof

  unfoldable pub verify_from_empty :
      (new_size : ℕ) → List Sha256Hash → (old_root new_root : Sha256Hash) → Result (Unit {0})
  verify_from_empty new_size proof_hashes old_root new_root = do
    ensure (is_empty proof_hashes) invalid_proof
    ensure (not (new_size == 0 && not (bytes_eq old_root new_root)))
        (hash_mismatch old_root new_root)

  unfoldable pub verify_consistency_proof :
      (old_size new_size : ℕ)
      → List Sha256Hash
      → (old_root new_root : Sha256Hash) → Result (Unit {0})
  unfolding verify_growth verify_same_size verify_from_empty
  verify_consistency_proof old_size new_size proof_hashes old_root new_root =
      if ltb new_size old_size
      then err invalid_tree_size
      else if old_size == 0
      then verify_from_empty new_size proof_hashes old_root new_root
      else if old_size == new_size
      then verify_same_size proof_hashes old_root new_root
      else verify_growth old_size new_size proof_hashes old_root new_root
