-- ===== src/Merkle/Consistency/Complete.antt =====
-- `verify_consistency_proof` accepts a proof for every growth of a log: the root of the old tree's last
-- full part, unless the old tree is just that, and its audit path in the new tree.
use sigstore_rust.Common.{
  ℕ, zero, suc, ◌+◌, ◌-◌, ◌^◌, ◌<◌, ◌≤◌, List, [], ◌∷◌, ◌++◌, Bytes, length, take, arith, ◌≡◌, ap,
  ◌∙◌, sym, map, ℕ_discrete,
}
use sigstore_rust.Common.Bits.{shift_right, trailing_zeros, trailing_zeros-Halves}
use sigstore_rust.Common.Fallible.{ok, ensure_then}
use sigstore_rust.Merkle.Error.{hash_mismatch}
use sigstore_rust.Merkle.Tree.{Sha256Hash, hash_leaf}
use sigstore_rust.Merkle.Inclusion.Correct.{le-two_pow}
use sigstore_rust.Merkle.Spec.Levels.{collapse}
use sigstore_rust.Merkle.Spec.Rfc.{collapse-root}
use sigstore_rust.Merkle.Spec.Tree.{
  MerkleTree, size, leaves, IsRfc6962, size_pos, root, leaf_hashes, length-leaf_hashes,
}
use sigstore_rust.Merkle.Consistency.{
  inner_proof_size, verify_growth, verify_same_size, verify_consistency_proof,
}
use sigstore_rust.Merkle.Consistency.Prefix.{take-map, take-all}
use sigstore_rust.Merkle.Consistency.Growth.{growth_complete, single_inj}
use sigstore_rust.Merkle.Consistency.AppendOnly.{inner_proof_size-Meet, leaf_hashes-leaves}
use sigstore_rust.Merkle.Consistency.Accepts.{bytes_eq_of, path_accepted}

single-snoc : {A : Type 0} (xs : List A) {x y : A} → (x ∷ []) ≡ (xs ++ (y ∷ [])) → x ≡ y
single-snoc [] e = single_inj e
single-snoc (z ∷ []) e = cc e
single-snoc (z ∷ z' ∷ zs) e = cc e

length-take_le : {A : Type 0} (xs : List A) (n : ℕ) → length (take n xs) ≤ length xs
length-take_le xs zero = omega arith
length-take_le [] (suc n) = omega arith
length-take_le (x ∷ xs) (suc n) = omega (arith, length-take_le xs n)

module _ (sha256 : Bytes → Sha256Hash) where
  -- The first leaves' hashes are those of the smaller tree.
  first_leaf_hashes :
      (t₀ t : MerkleTree)
      → leaves t₀ ≡ take (size t₀) (leaves t)
      → leaf_hashes sha256 t₀ ≡ take (size t₀) (leaf_hashes sha256 t)
  first_leaf_hashes t₀ t e =
      leaf_hashes-leaves sha256 t₀
      ∙ ap (map (hash_leaf sha256)) e
      ∙ sym (take-map (hash_leaf sha256) (leaves t) (size t₀))
      ∙ ap (take (size t₀)) (sym (leaf_hashes-leaves sha256 t))

  growth_accepts :
      (t₀ t : MerkleTree)
      → IsRfc6962 t₀
      → IsRfc6962 t
      → size t < 2 ^ 64
      → size t₀ < size t
      → leaf_hashes sha256 t₀ ≡ take (size t₀) (leaf_hashes sha256 t)
      → (ps : List Sha256Hash) × (verify_growth sha256
            (size t₀)
            (size t)
            ps
            (root sha256 t₀)
            (root sha256 t)
          ≡ ok tt)
  growth_accepts t₀ t rfc₀ rfc u64 lt e =
      let m = size t₀ in
      let n = size t in
      let s = trailing_zeros 64 m in
      let (seed, path, cut, len, some_hash, old, new) =
        growth_complete sha256 s (inner_proof_size (m - 1) n) n m (n - 1) (leaf_hashes sha256 t)
          (trailing_zeros-Halves 64 m) (size_pos t₀) (omega (arith, length-leaf_hashes sha256 t))
          (omega arith) (omega arith) (inner_proof_size-Meet m n lt (omega arith))
          (omega (arith, length-leaf_hashes sha256 t, le-two_pow n)) (root sha256 t₀)
          (root sha256 t) (collapse-root sha256 t (s + n) rfc (omega (arith, le-two_pow (s + n))))
          (ap (collapse sha256 (s + n)) (sym e)
            ∙ collapse-root sha256 t₀ (s + n) rfc₀ (omega (arith, le-two_pow (s + n)))) in
      path_accepted sha256 m n seed (root sha256 t₀) (root sha256 t) path (omega arith)
        (λ whole.
          single-snoc (take (shift_right (m - 1) s) (collapse sha256 s (leaf_hashes sha256 t))) (
            sym (collapse-root sha256 t₀ s rfc₀ (omega (arith, whole)))
            ∙ ap (collapse sha256 s) e
            ∙ cut))
        len some_hash old new

  -- Trees of one size, and the same leaves: the empty proof.
  same_size_accepts :
      (t₀ t : MerkleTree)
      → IsRfc6962 t₀
      → IsRfc6962 t
      → size t₀ ≡ size t
      → leaf_hashes sha256 t₀ ≡ take (size t₀) (leaf_hashes sha256 t)
      → verify_same_size sha256 [] (root sha256 t₀) (root sha256 t) ≡ ok tt
  unfolding verify_same_size
  same_size_accepts t₀ t rfc₀ rfc same e =
      let roots : root sha256 t₀ ≡ root sha256 t = single_inj (
        sym (collapse-root sha256 t₀ (size t) rfc₀ (omega (arith, le-two_pow (size t))))
        ∙ ap (collapse sha256 (size t)) (
            e
            ∙ take-all (leaf_hashes sha256 t) (size t₀)
                (omega (arith, length-leaf_hashes sha256 t)))
        ∙ collapse-root sha256 t (size t) rfc (le-two_pow (size t))) in
      ensure_then _ (hash_mismatch (root sha256 t₀) (root sha256 t)) _ (bytes_eq_of _ _ roots)

  dispatch_growth :
      (m n : ℕ) (ps : List Sha256Hash) (old_root new_root : Sha256Hash)
      → 0 < m
      → m < n
      → verify_consistency_proof sha256 m n ps old_root new_root
        ≡ verify_growth sha256 m n ps old_root new_root
  unfolding verify_consistency_proof
  dispatch_growth m n ps old_root new_root pos lt = ground arith

  dispatch_same_size :
      (m n : ℕ) (ps : List Sha256Hash) (old_root new_root : Sha256Hash)
      → 0 < m
      → m ≡ n
      → verify_consistency_proof sha256 m n ps old_root new_root
        ≡ verify_same_size sha256 ps old_root new_root
  unfolding verify_consistency_proof
  dispatch_same_size m n ps old_root new_root pos same = ground arith

  -- Every growth of a log has a consistency proof that is accepted: for two trees of RFC 6962, the
  -- leaves of the one being the first leaves of the other, and a size of the larger that fits 64 bits.
  pub verify_consistency_proof_complete :
      (t₀ t : MerkleTree)
      → IsRfc6962 t₀
      → IsRfc6962 t
      → size t < 2 ^ 64
      → leaves t₀ ≡ take (size t₀) (leaves t)
      → (ps : List Sha256Hash) × (verify_consistency_proof sha256
            (size t₀)
            (size t)
            ps
            (root sha256 t₀)
            (root sha256 t)
          ≡ ok tt)
  verify_consistency_proof_complete t₀ t rfc₀ rfc u64 first =
      let e = first_leaf_hashes t₀ t first in
      let le : size t₀ ≤ size t = omega (
        arith,
        ap length e,
        length-leaf_hashes sha256 t₀,
        length-leaf_hashes sha256 t,
        length-take_le (leaf_hashes sha256 t) (size t₀),
      ) in
      elim (ℕ_discrete (size t₀) (size t)) [
        | yes same ↦ (
          [],
          dispatch_same_size (size t₀) (size t) [] _ _ (size_pos t₀) same
              ∙ same_size_accepts t₀ t rfc₀ rfc same e,
        )
        | no smaller ↦
            let lt : size t₀ < size t = omega arith in
            let (ps, run) = growth_accepts t₀ t rfc₀ rfc u64 lt e in
            (ps, dispatch_growth (size t₀) (size t) ps _ _ (size_pos t₀) lt ∙ run)
      ]
