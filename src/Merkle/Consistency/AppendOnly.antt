-- ===== src/Merkle/Consistency/AppendOnly.antt =====
-- `verify_consistency_proof` against RFC 6962: what it accepts shows that the old tree's leaves are the
-- first leaves of the new tree.
use sigstore_rust.Common.{
  ℕ, ◌+◌, ◌-◌, ◌^◌, ◌<◌, ◌≤◌, List, [], ◌∷◌, ◌++◌, Bool, true, false, Bytes, length, take, drop,
  arith, ◌≡◌, refl, ap, ◌∙◌, sym, ◌⊎◌, inl, inr, reduce, map, is_empty, not, ◌==◌, eq_of_bytes_eq,
  ==_iff, ap₂,
}
use mathlib.Core.List.{map-append}
use sigstore_rust.Common.Bits.{
  shift_right, trailing_zeros, trailing_zeros-Halves, leading_zeros-Meet,
  checked_shr_or_zero-shift_right, count_ones, Meet,
}
use sigstore_rust.Common.Fallible.{ok, ok_inj, >>=-eq-ok, ensure-eq-ok, ensure_then_ok}
use sigstore_rust.Merkle.Error.{invalid_proof}
use sigstore_rust.Merkle.Tree.{Sha256Hash, hash_leaf, hash_children}
use sigstore_rust.Merkle.Inclusion.Levels.{Wide}
use sigstore_rust.Merkle.Inclusion.Correct.{le-two_pow, leaf_hashes-Wide}
use sigstore_rust.Merkle.Spec.Levels.{collapse}
use sigstore_rust.Merkle.Spec.Collisions.{Collision}
use sigstore_rust.Merkle.Spec.Rfc.{collapse-root}
use sigstore_rust.Merkle.Spec.Tree.{
  MerkleTree, leaf, node, size, leaves, IsRfc6962, size_pos, root, leaf_hashes, length-leaf_hashes,
}
use sigstore_rust.Merkle.Consistency.{
  inner_proof_size, decompose_inclusion_proof, seed_and_start, inner_loop, chain_border_right,
  verify_chains, verify_growth, verify_same_size, verify_consistency_proof,
}
use sigstore_rust.Merkle.Consistency.Chains.{chained}
use sigstore_rust.Merkle.Consistency.Prefix.{
  take-all, take-map, length-take, Wide-take, collapse_inj, map_leaf_inj,
}
use sigstore_rust.Merkle.Consistency.Growth.{growth_sound}

-- The seed has the width of a digest, and the rest of the proof follows it.
seed_and_start_ok :
    (is_power : Bool) (old_root : Sha256Hash) (ps : List Sha256Hash) (r : Sha256Hash × ℕ)
    → seed_and_start is_power old_root ps ≡ ok r
    → length old_root ≡ 32
    → Wide ps
    → (length (r.0) ≡ 32) × Wide (drop (r.1) ps) × (length ps ≡ r.1 + length (drop (r.1) ps))
unfolding seed_and_start
seed_and_start_ok true old_root ps r e w wp = rw (sym (ok_inj e)) (w, wp, omega arith)
seed_and_start_ok false old_root [] r e w wp = cc
seed_and_start_ok false old_root (p ∷ ps) r e w wp = rw (sym (ok_inj e)) (wp.0, wp.1, omega arith)

pub inner_proof_size-Meet :
    (m n : ℕ) → m < n → n ≤ 2 ^ 64 → Meet (inner_proof_size (m - 1) n) (m - 1) (n - 1)
unfolding inner_proof_size
inner_proof_size-Meet m n h lt = leading_zeros-Meet 64 (m - 1) (n - 1) (omega arith) (omega arith)

module _ (sha256 : Bytes → Sha256Hash) where
  pub leaf_hashes-leaves :
      (t : MerkleTree) → leaf_hashes sha256 t ≡ map (hash_leaf sha256) (leaves t)
  leaf_hashes-leaves (leaf d) = refl
  leaf_hashes-leaves (node l r) =
      ap₂ (λ x y. x ++ y) (leaf_hashes-leaves l) (leaf_hashes-leaves r)
      ∙ sym (map-append _ (leaves l) (leaves r))

  verify_chains_ok :
      (seed : Sha256Hash) (proof : List Sha256Hash) (inner mask : ℕ)
      (old_root new_root : Sha256Hash)
      → verify_chains sha256 seed proof inner mask old_root new_root ≡ ok tt
      → (chained sha256 inner mask 0 proof seed ≡ old_root)
        × (chain_border_right sha256
              (inner_loop sha256 seed mask 0 (take inner proof))
              (drop inner proof)
            ≡ new_root)
  unfolding verify_chains
  verify_chains_ok seed proof inner mask old_root new_root e =
      let (old, rest) = ensure_then_ok _ _ _ e in
      (eq_of_bytes_eq _ _ old, eq_of_bytes_eq _ _ (ensure-eq-ok _ _ rest))

  -- What the guards of the normal case leave.
  verify_growth_ok :
      (m n : ℕ) (ps : List Sha256Hash) (old_root new_root : Sha256Hash)
      → length old_root ≡ 32
      → Wide ps
      → verify_growth sha256 m n ps old_root new_root ≡ ok tt
      → (seed : Sha256Hash) × (proof : List Sha256Hash) × (length seed ≡ 32)
        × Wide proof
        × (length proof
            ≡ (inner_proof_size (m - 1) n - trailing_zeros 64 m)
              + (decompose_inclusion_proof (m - 1) n).1)
        × (verify_chains sha256 seed proof
              (inner_proof_size (m - 1) n - trailing_zeros 64 m)
              (shift_right (m - 1) (trailing_zeros 64 m))
              old_root
              new_root
            ≡ ok tt)
  unfolding verify_growth decompose_inclusion_proof
  verify_growth_ok m n ps old_root new_root w wp e =
      let (some_hash, e1) = ensure_then_ok (not (is_empty ps)) invalid_proof _ e in
      let (seed_start, e2, e3) =
        >>=-eq-ok (seed_and_start (m == 2 ^ trailing_zeros 64 m) old_root ps) _ e1 in
      let (len, run) = ensure_then_ok _ invalid_proof _ e3 in
      let (ws, wd, split) =
        seed_and_start_ok (m == 2 ^ trailing_zeros 64 m) old_root ps seed_start e2 w wp in
      let counted : length ps
          ≡ seed_start.1
            + (inner_proof_size (m - 1) n - trailing_zeros 64 m)
            + (decompose_inclusion_proof (m - 1) n).1 =
        (==_iff _ _).0 len in
      (seed_start.0, drop (seed_start.1) ps, ws, wd, omega (arith, counted, split), run)

  same_size_ok :
      (ps : List Sha256Hash) (old_root new_root : Sha256Hash)
      → verify_same_size sha256 ps old_root new_root ≡ ok tt
      → old_root ≡ new_root
  unfolding verify_same_size
  same_size_ok ps old_root new_root e = eq_of_bytes_eq _ _ ((ensure_then_ok _ _ _ e).0)

  -- An old tree that is not empty: the trees have one size and one root, or the old one is smaller.
  verify_consistency_proof_ok :
      (m n : ℕ) (ps : List Sha256Hash) (old_root new_root : Sha256Hash)
      → 0 < m
      → verify_consistency_proof sha256 m n ps old_root new_root ≡ ok tt
      → ((m ≡ n) × (verify_same_size sha256 ps old_root new_root ≡ ok tt))
        ⊎ ((m < n) × (verify_growth sha256 m n ps old_root new_root ≡ ok tt))
  unfolding verify_consistency_proof
  verify_consistency_proof_ok m n ps old_root new_root pos e = ground arith

module _ (sha256 : Bytes → Sha256Hash) (sha256_width : (b : Bytes) → length (sha256 b) ≡ 32) where
  root_width : (t : MerkleTree) → length (root sha256 t) ≡ 32
  unfolding hash_leaf hash_children
  root_width (leaf d) = sha256_width _
  root_width (node l r) = sha256_width _

  -- First leaves with the root of a tree of their number are that tree's.
  leaves_of_root :
      (k : ℕ) (t₀ t : MerkleTree)
      → IsRfc6962 t₀
      → size t₀ ≤ size t
      → size t₀ ≤ 2 ^ k
      → collapse sha256 k (take (size t₀) (leaf_hashes sha256 t)) ≡ root sha256 t₀ ∷ []
      → (leaves t₀ ≡ take (size t₀) (leaves t)) ⊎ Collision sha256
  leaves_of_root k t₀ t rfc le b c =
      reduce
        (collapse_inj sha256 sha256_width k (leaf_hashes sha256 t₀)
          (take (size t₀) (leaf_hashes sha256 t))
          (length-leaf_hashes sha256 t₀
            ∙ sym (length-take _ _ (omega (arith, length-leaf_hashes sha256 t))))
          (leaf_hashes-Wide sha256 sha256_width t₀)
          (Wide-take _ _ (leaf_hashes-Wide sha256 sha256_width t))
          (collapse-root sha256 t₀ k rfc b ∙ sym c))
        (λ e. map_leaf_inj sha256 (leaves t₀) (take (size t₀) (leaves t)) (
          sym (leaf_hashes-leaves sha256 t₀)
          ∙ e
          ∙ ap (take (size t₀)) (leaf_hashes-leaves sha256 t)
          ∙ take-map (hash_leaf sha256) (leaves t) (size t₀)))

  growth_append_only :
      (t₀ t : MerkleTree) (ps : List Sha256Hash)
      → IsRfc6962 t₀
      → IsRfc6962 t
      → size t < 2 ^ 64
      → size t₀ < size t
      → Wide ps
      → verify_growth sha256 (size t₀) (size t) ps (root sha256 t₀) (root sha256 t) ≡ ok tt
      → (leaves t₀ ≡ take (size t₀) (leaves t)) ⊎ Collision sha256
  unfolding decompose_inclusion_proof
  growth_append_only t₀ t ps rfc₀ rfc u64 lt wp e =
      let m = size t₀ in
      let n = size t in
      let s = trailing_zeros 64 m in
      let (seed, proof, ws, wd, len, run) =
        verify_growth_ok sha256 m n ps (root sha256 t₀) (root sha256 t) (root_width t₀) wp e in
      let (old, new) = verify_chains_ok sha256 seed proof _ _ _ _ run in
      reduce
        (growth_sound sha256 s (inner_proof_size (m - 1) n) n m (n - 1) (leaf_hashes sha256 t)
          (trailing_zeros-Halves 64 m) (size_pos t₀) (omega (arith, length-leaf_hashes sha256 t))
          (omega arith) (omega arith) (inner_proof_size-Meet m n lt (omega arith))
          (omega (arith, length-leaf_hashes sha256 t, le-two_pow n)) sha256_width seed proof _ _
          (leaf_hashes-Wide sha256 sha256_width t) ws wd
          (len
            ∙ ap (λ x. (inner_proof_size (m - 1) n - s) + count_ones 64 x)
                (checked_shr_or_zero-shift_right (m - 1) _ (omega arith)))
          (collapse-root sha256 t (s + n) rfc (omega (arith, le-two_pow (s + n)))) old new)
        (leaves_of_root (s + n) t₀ t rfc₀ (omega arith) (omega (arith, le-two_pow (s + n))))

  -- An accepted consistency proof shows that a log only grew. For trees of RFC 6962 with the two
  -- sizes and roots, and sizes that fit 64 bits, the leaves of the old tree are the first leaves of the
  -- new one, or two inputs with one SHA-256 digest are at hand. The digests are 32 bytes wide, and so
  -- are the proof's entries.
  pub verify_consistency_proof_sound :
      (t₀ t : MerkleTree) (ps : List Sha256Hash)
      → IsRfc6962 t₀
      → IsRfc6962 t
      → size t < 2 ^ 64
      → Wide ps
      → verify_consistency_proof sha256 (size t₀) (size t) ps (root sha256 t₀) (root sha256 t)
        ≡ ok tt
      → (leaves t₀ ≡ take (size t₀) (leaves t)) ⊎ Collision sha256
  verify_consistency_proof_sound t₀ t ps rfc₀ rfc u64 wp e =
      elim (verify_consistency_proof_ok sha256 (size t₀) (size t) ps (root sha256 t₀)
        (root sha256 t) (size_pos t₀) e) [
          | inl (same, run) ↦
              leaves_of_root (size t) t₀ t rfc₀ (omega arith) (omega (arith, le-two_pow (size t))) (
                ap (collapse sha256 (size t)) (
                  take-all (leaf_hashes sha256 t) (size t₀)
                    (omega (arith, length-leaf_hashes sha256 t)))
                ∙ collapse-root sha256 t (size t) rfc (le-two_pow (size t))
                ∙ ap (λ r. r ∷ []) (sym (same_size_ok sha256 ps _ _ run)))
          | inr (lt, run) ↦ growth_append_only t₀ t ps rfc₀ rfc u64 lt wp run
        ]
