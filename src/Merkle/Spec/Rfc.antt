-- ===== src/Merkle/Spec/Rfc.antt =====
-- The root and the audit paths of RFC 6962's tree are those of its levels.
use native.Mathlib.Nat.{pow-le-pow_right}
use sigstore_rust.Common.{
  ℕ, zero, suc, ◌+◌, ◌-◌, ◌^◌, ◌<◌, ◌≤◌, [], ◌∷◌, ◌++◌, Bytes, ◌≡◌, refl, arith, ap, ◌∙◌, ltb,
  Bool-cases, inl, inr,
}
use sigstore_rust.Merkle.Inclusion.Length.{level_path-single}
use sigstore_rust.Merkle.Tree.{Sha256Hash}
use sigstore_rust.Merkle.Spec.Levels.{collapse, level_path}
use sigstore_rust.Merkle.Spec.Agree.{
  collapse-append, collapse-more, level_path-append_left, level_path-append_right, level_path-more,
}
use sigstore_rust.Merkle.Spec.Tree.{
  MerkleTree, leaf, node, size, IsFull, IsRfc6962, size-full, size_pos, root, leaf_hashes,
  audit_path, length-leaf_hashes,
}

lt_of_pow : (a b : ℕ) → 2 ^ a < 2 ^ b → a < b
lt_of_pow a b h = grind (arith, pow-le-pow_right)

module _ (sha256 : Bytes → Sha256Hash) where
  collapse-full :
      (k : ℕ) (t : MerkleTree)
      → IsFull k t
      → collapse sha256 k (leaf_hashes sha256 t) ≡ root sha256 t ∷ []
  unfolding collapse
  collapse-full zero (leaf d) h = refl
  collapse-full zero (node l r) h = absurd h
  collapse-full (suc k) (leaf d) h = absurd h
  collapse-full (suc k) (node l r) h =
      collapse-append sha256 k _ _ _ _
        (omega (arith, length-leaf_hashes sha256 l, size-full k l h.0)) (collapse-full k l h.0)
        (collapse-full k r h.1)

  -- The root of an RFC tree, for every number of levels that is enough.
  pub collapse-root :
      (t : MerkleTree) (m : ℕ)
      → IsRfc6962 t
      → size t ≤ 2 ^ m
      → collapse sha256 m (leaf_hashes sha256 t) ≡ root sha256 t ∷ []
  collapse-root (leaf d) m h b =
      collapse-more sha256 0 m _ _ (omega arith) (unfold collapse in refl)
  collapse-root (node l r) m (k, full, rfc, fits) b =
      collapse-more sha256 (suc k) m _ _
        (lt_of_pow k m (omega (arith, size-full k l full, size_pos r)))
        (collapse-append sha256 k _ _ _ _
          (omega (arith, length-leaf_hashes sha256 l, size-full k l full)) (collapse-full k l full)
          (collapse-root r k rfc fits))

  level_path-node :
      (k : ℕ) (l r : MerkleTree) (i : ℕ)
      → size l ≡ 2 ^ k
      → size r ≤ 2 ^ k
      → i < size l + size r
      → collapse sha256 k (leaf_hashes sha256 l) ≡ root sha256 l ∷ []
      → collapse sha256 k (leaf_hashes sha256 r) ≡ root sha256 r ∷ []
      → ((j : ℕ)
          → j < size l
          → level_path sha256 k (leaf_hashes sha256 l) j ≡ audit_path sha256 l j)
      → ((j : ℕ)
          → j < size r
          → level_path sha256 k (leaf_hashes sha256 r) j ≡ audit_path sha256 r j)
      → level_path sha256 (suc k) (leaf_hashes sha256 (node l r)) i ≡ audit_path sha256 (node l r) i
  level_path-node k l r i el er h cl cr pl pr = elim (Bool-cases (ltb i (size l))) [
    | inl below ↦
        let lt : i < size l = ground arith in
        rw below (
          level_path-append_left sha256 k _ _ _ i (omega (arith, length-leaf_hashes sha256 l)) cr
            (omega (arith, length-leaf_hashes sha256 l))
          ∙ ap (λ p. p ++ (root sha256 r ∷ [])) (pl i lt))
    | inr above ↦
        let le : size l ≤ i = ground arith in
        rw above (
          level_path-append_right sha256 k _ _ _ (i - size l) i
            (omega (arith, length-leaf_hashes sha256 l)) cl
            (omega (arith, length-leaf_hashes sha256 l))
            (omega (arith, length-leaf_hashes sha256 r))
            (omega (arith, length-leaf_hashes sha256 r))
          ∙ ap (λ p. p ++ (root sha256 l ∷ [])) (pr (i - size l) (omega arith)))
  ]

  level_path-full :
      (k : ℕ) (t : MerkleTree) (i : ℕ)
      → IsFull k t
      → i < size t
      → level_path sha256 k (leaf_hashes sha256 t) i ≡ audit_path sha256 t i
  unfolding level_path
  level_path-full zero (leaf d) i f h = refl
  level_path-full zero (node l r) i f h = absurd f
  level_path-full (suc k) (leaf d) i f h = absurd f
  level_path-full (suc k) (node l r) i f h =
      level_path-node k l r i (size-full k l f.0) (omega (arith, size-full k r f.1)) h
        (collapse-full k l f.0) (collapse-full k r f.1) (λ j. level_path-full k l j f.0)
        (λ j. level_path-full k r j f.1)

  -- The audit path of a leaf of an RFC tree, for every number of levels that is enough.
  pub level_path-audit_path :
      (t : MerkleTree) (m i : ℕ)
      → IsRfc6962 t
      → size t ≤ 2 ^ m
      → i < size t
      → level_path sha256 m (leaf_hashes sha256 t) i ≡ audit_path sha256 t i
  level_path-audit_path (leaf d) m i h b l = level_path-single sha256 m _ i refl l
  level_path-audit_path (node l r) m i (k, full, rfc, fits) b h =
      let cl = collapse-full k l full in
      let cr = collapse-root r k rfc fits in
      level_path-more sha256 (suc k) m _ (root sha256 (node l r)) i
        (lt_of_pow k m (omega (arith, size-full k l full, size_pos r)))
        (collapse-append sha256 k _ _ _ _
          (omega (arith, length-leaf_hashes sha256 l, size-full k l full)) cl cr)
        (omega (arith, length-leaf_hashes sha256 (node l r)))
      ∙ level_path-node k l r i (size-full k l full) fits h cl cr (λ j. level_path-full k l j full)
          (λ j. level_path-audit_path r k j rfc fits)
