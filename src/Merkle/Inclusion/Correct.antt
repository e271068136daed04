-- ===== src/Merkle/Inclusion/Correct.antt =====
-- `verify_inclusion_proof` against RFC 6962: it accepts every audit path, and what it accepts is one.
use sigstore_rust.Common.{
  ℕ, zero, suc, ◌-◌, ◌^◌, ◌<◌, ◌≤◌, List, [], ◌∷◌, Bytes, length, ◌≡◌, arith, ap, ◌∙◌, sym,
  get_elem?, pow-suc, some, ◌⊎◌, inl, reduce, All-append, bytes_eq, bytes_eq_refl, eq_of_bytes_eq,
  true,
}
use sigstore_rust.Common.Fallible.{ok}
use sigstore_rust.Merkle.Tree.{Sha256Hash, hash_leaf}
use sigstore_rust.Merkle.Inclusion.{
  inclusion_loop, expected_inclusion_proof_length, verify_inclusion_proof,
}
use sigstore_rust.Merkle.Inclusion.Levels.{Wide, inclusion_loop-level_path}
use sigstore_rust.Merkle.Inclusion.Length.{expected_inclusion_proof_length-level_path}
use sigstore_rust.Merkle.Inclusion.Sound.{inclusion_loop_sound}
use sigstore_rust.Merkle.Spec.Collisions.{Collision}
use sigstore_rust.Merkle.Spec.Rfc.{collapse-root, level_path-audit_path}
use sigstore_rust.Merkle.Spec.Tree.{
  MerkleTree, leaf, node, size, IsRfc6962, size_pos, root, leaf_hashes, audit_path,
  length-leaf_hashes,
}

-- Enough levels for any number of leaves.
lt-two_pow : (n : ℕ) → n < 2 ^ n
lt-two_pow zero = omega arith
lt-two_pow (suc n) = omega (arith, lt-two_pow n, pow-suc 2 n)

pub le-two_pow : (n : ℕ) → n ≤ 2 ^ n
le-two_pow n = omega (arith, lt-two_pow n)

get_elem?-lt : {A : Type 0} (xs : List A) (i : ℕ) {x : A} → get_elem? xs i ≡ some x → i < length xs
get_elem?-lt [] i g = cc
get_elem?-lt (x ∷ xs) zero g = omega arith
get_elem?-lt (x ∷ xs) (suc i) g = omega (arith, get_elem?-lt xs i g)

module _ (sha256 : Bytes → Sha256Hash) where
  -- The answer is `ok` exactly if the guards and the comparison pass.
  pub accepts :
      (h : Sha256Hash) (i n : ℕ) (ps : List Sha256Hash) (r : Sha256Hash)
      → i < n
      → length ps ≡ expected_inclusion_proof_length i n
      → inclusion_loop sha256 h i (n - 1) ps ≡ r
      → verify_inclusion_proof sha256 h i n ps r ≡ ok tt
  unfolding verify_inclusion_proof
  accepts h i n ps r lt len e =
      let same : bytes_eq (inclusion_loop sha256 h i (n - 1) ps) r ≡ true =
        rw e (bytes_eq_refl r) in
      ground arith

  pub accepted :
      (h : Sha256Hash) (i n : ℕ) (ps : List Sha256Hash) (r : Sha256Hash)
      → verify_inclusion_proof sha256 h i n ps r ≡ ok tt
      → (i < n)
        × (length ps ≡ expected_inclusion_proof_length i n)
        × (inclusion_loop sha256 h i (n - 1) ps ≡ r)
  unfolding verify_inclusion_proof
  accepted h i n ps r e = ground (arith, eq_of_bytes_eq (inclusion_loop sha256 h i (n - 1) ps) r)

  -- Completeness: on a tree of RFC 6962, the audit path of any leaf is accepted for that leaf's hash,
  -- its index, the tree's size and the tree's root.
  pub verify_inclusion_proof-audit_path :
      (t : MerkleTree) (i : ℕ) (h : Sha256Hash)
      → IsRfc6962 t
      → get_elem? (leaf_hashes sha256 t) i ≡ some h
      → verify_inclusion_proof sha256 h i (size t) (audit_path sha256 t i) (root sha256 t) ≡ ok tt
  verify_inclusion_proof-audit_path t i h rfc g =
      let n = length-leaf_hashes sha256 t in
      let lt : i < size t = omega (arith, get_elem?-lt (leaf_hashes sha256 t) i g) in
      let path = level_path-audit_path sha256 t (size t) i rfc (le-two_pow _) lt in
      accepts h i (size t) _ _ lt
        (sym (ap length path)
          ∙ sym (
              expected_inclusion_proof_length-level_path sha256 (size t) (leaf_hashes sha256 t) i
                (omega arith) (omega (arith, le-two_pow (size t))))
          ∙ ap (expected_inclusion_proof_length i) n)
        (ap (inclusion_loop sha256 h i (size t - 1)) (sym path)
          ∙ inclusion_loop-level_path sha256 (size t) (leaf_hashes sha256 t) i (size t - 1) h
              (root sha256 t) (omega (arith, size_pos t)) (omega (arith, le-two_pow (size t))) g
              (omega arith) (collapse-root sha256 t (size t) rfc (le-two_pow _)))

module _ (sha256 : Bytes → Sha256Hash) (sha256_width : (b : Bytes) → length (sha256 b) ≡ 32) where
  pub leaf_hashes-Wide : (t : MerkleTree) → Wide (leaf_hashes sha256 t)
  unfolding hash_leaf
  leaf_hashes-Wide (leaf d) = (sha256_width _, tt)
  leaf_hashes-Wide (node l r) =
      All-append _ (leaf_hashes sha256 l) _ (leaf_hashes-Wide l) (leaf_hashes-Wide r)

  -- Soundness: whatever is accepted against the size and the root of a tree of RFC 6962 is the hash
  -- of the leaf at that index with its audit path, or two inputs with one SHA-256 digest are at hand.
  -- The digests are 32 bytes wide, and so are the leaf hash and the proof's entries.
  pub verify_inclusion_proof_sound :
      (t : MerkleTree) (i : ℕ) (h : Sha256Hash) (ps : List Sha256Hash)
      → IsRfc6962 t
      → length h ≡ 32
      → Wide ps
      → verify_inclusion_proof sha256 h i (size t) ps (root sha256 t) ≡ ok tt
      → ((get_elem? (leaf_hashes sha256 t) i ≡ some h) × (ps ≡ audit_path sha256 t i))
        ⊎ Collision sha256
  verify_inclusion_proof_sound t i h ps rfc w wp e =
      let (lt, len, run) = accepted sha256 h i (size t) ps (root sha256 t) e in
      let n = length-leaf_hashes sha256 t in
      let path = level_path-audit_path sha256 t (size t) i rfc (le-two_pow _) lt in
      reduce
        (inclusion_loop_sound sha256 sha256_width (size t) (leaf_hashes sha256 t) i (size t - 1) h
          (root sha256 t) ps (omega (arith, size_pos t)) (omega (arith, le-two_pow (size t)))
          (omega arith) (leaf_hashes-Wide t) w wp
          (len
            ∙ sym (ap (expected_inclusion_proof_length i) n)
            ∙ expected_inclusion_proof_length-level_path sha256 (size t) (leaf_hashes sha256 t) i
                (omega arith) (omega (arith, le-two_pow (size t))))
          (collapse-root sha256 t (size t) rfc (le-two_pow _)) run)
        (λ g. inl (g.0, g.1 ∙ path))
