-- ===== src/Merkle/Spec/Tree.antt =====
-- The Merkle tree of RFC 6962, section 2.1: the left part is full and at least as large as the right.
use sigstore_rust.Common.{
  ℕ, zero, suc, ◌+◌, ◌-◌, ◌^◌, ◌≤◌, List, [], ◌∷◌, ◌++◌, Bytes, length, ltb, if◌then◌else◌, ◌≡◌,
  refl, length-append, arith, pow-suc,
}
use sigstore_rust.Merkle.Tree.{Sha256Hash, hash_leaf, hash_children}

pub data MerkleTree : Type 0 where
  leaf : Bytes → MerkleTree
  node : MerkleTree → MerkleTree → MerkleTree

abbrev pub leaves : MerkleTree → List Bytes
leaves (leaf d) = d ∷ []
leaves (node l r) = leaves l ++ leaves r

abbrev pub size : MerkleTree → ℕ
size (leaf d) = 1
size (node l r) = size l + size r

-- All leaves stand at depth `k`.
abbrev pub IsFull : ℕ → MerkleTree → Type 0
IsFull zero (leaf d) = Unit
IsFull zero (node l r) = ⊥
IsFull (suc k) (leaf d) = ⊥
IsFull (suc k) (node l r) = IsFull k l × IsFull k r

-- The RFC splits `n` leaves at the largest power of two below `n`.
abbrev pub IsRfc6962 : MerkleTree → Type 0
IsRfc6962 (leaf d) = Unit
IsRfc6962 (node l r) = (k : ℕ) × IsFull k l × IsRfc6962 r × (size r ≤ 2 ^ k)

pub size-full : (k : ℕ) (t : MerkleTree) → IsFull k t → size t ≡ 2 ^ k
size-full zero (leaf d) h = refl
size-full zero (node l r) h = absurd h
size-full (suc k) (leaf d) h = absurd h
size-full (suc k) (node l r) h = omega (arith, size-full k l h.0, size-full k r h.1, pow-suc 2 k)

pub size_pos : (t : MerkleTree) → 1 ≤ size t
size_pos (leaf d) = omega arith
size_pos (node l r) = omega (arith, size_pos l)

module _ (sha256 : Bytes → Sha256Hash) where
  abbrev pub leaf_hashes : MerkleTree → List Sha256Hash
  leaf_hashes (leaf d) = hash_leaf sha256 d ∷ []
  leaf_hashes (node l r) = leaf_hashes l ++ leaf_hashes r

  abbrev pub root : MerkleTree → Sha256Hash
  root (leaf d) = hash_leaf sha256 d
  root (node l r) = hash_children sha256 (root l) (root r)

  -- The RFC's PATH(m, D[n]), lowest node first.
  abbrev pub audit_path : MerkleTree → ℕ → List Sha256Hash
  audit_path (leaf d) i = []
  audit_path (node l r) i =
      if ltb i (size l)
      then audit_path l i ++ (root r ∷ [])
      else audit_path r (i - size l) ++ (root l ∷ [])

  pub length-leaf_hashes : (t : MerkleTree) → length (leaf_hashes t) ≡ size t
  length-leaf_hashes (leaf d) = refl
  length-leaf_hashes (node l r) = omega (
    arith,
    length-append (leaf_hashes l) (leaf_hashes r),
    length-leaf_hashes l,
    length-leaf_hashes r,
  )
