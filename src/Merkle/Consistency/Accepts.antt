-- ===== src/Merkle/Consistency/Accepts.antt =====
-- Proofs that `verify_consistency_proof` accepts on trees of different sizes: those whose chains lead to
-- both roots.
use sigstore_rust.Common.{
  ℕ, ◌+◌, ◌-◌, ◌^◌, ◌<◌, List, [], ◌∷◌, true, false, Bytes, length, take, drop, arith, ◌≡◌, ◌≢◌,
  refl, ap, ◌∙◌, sym, is_empty, not, ◌==◌, ==_iff, bytes_eq, bytes_eq_refl, ℕ_discrete,
}
use sigstore_rust.Common.Bits.{
  shift_right, trailing_zeros, checked_shr_or_zero-shift_right, count_ones,
}
use sigstore_rust.Common.Fallible.{ok, ensure, ensure_then, then_of_ok}
use sigstore_rust.Merkle.Error.{invalid_proof, verification_failed}
use sigstore_rust.Merkle.Tree.{Sha256Hash}
use sigstore_rust.Merkle.Consistency.{
  inner_proof_size, decompose_inclusion_proof, seed_and_start, inner_loop, chain_border_right,
  verify_chains, verify_growth,
}
use sigstore_rust.Merkle.Consistency.Chains.{chained}

not_empty : {A : Type 0} (xs : List A) → 0 < length xs → not (is_empty xs) ≡ true
not_empty [] h = absurd (omega arith)
not_empty (x ∷ xs) h = refl

pub bytes_eq_of : (a b : Bytes) → a ≡ b → bytes_eq a b ≡ true
bytes_eq_of a b e = ap (bytes_eq a) (sym e) ∙ bytes_eq_refl a

not_equal : (a b : ℕ) → a ≢ b → (a == b) ≡ false
not_equal a b h = ground arith

module _ (sha256 : Bytes → Sha256Hash) where
  verify_chains_accepts :
      (seed : Sha256Hash) (proof : List Sha256Hash) (inner mask : ℕ)
      (old_root new_root : Sha256Hash)
      → chained sha256 inner mask 0 proof seed ≡ old_root
      → chain_border_right sha256
          (inner_loop sha256 seed mask 0 (take inner proof))
          (drop inner proof)
        ≡ new_root
      → verify_chains sha256 seed proof inner mask old_root new_root ≡ ok tt
  unfolding verify_chains
  verify_chains_accepts seed proof inner mask old_root new_root old new =
      ensure_then _ verification_failed _ (bytes_eq_of _ _ old)
      ∙ ap (λ b. ensure b verification_failed) (bytes_eq_of _ _ new)

  verify_growth_accepts :
      (m n : ℕ) (ps : List Sha256Hash) (old_root new_root : Sha256Hash) (r : Sha256Hash × ℕ)
      → 0 < length ps
      → seed_and_start (m == 2 ^ trailing_zeros 64 m) old_root ps ≡ ok r
      → length ps
        ≡ r.1
          + (inner_proof_size (m - 1) n - trailing_zeros 64 m)
          + (decompose_inclusion_proof (m - 1) n).1
      → verify_chains sha256
          (r.0)
          (drop (r.1) ps)
          (inner_proof_size (m - 1) n - trailing_zeros 64 m)
          (shift_right (m - 1) (trailing_zeros 64 m))
          old_root
          new_root
        ≡ ok tt
      → verify_growth sha256 m n ps old_root new_root ≡ ok tt
  unfolding verify_growth decompose_inclusion_proof
  verify_growth_accepts m n ps old_root new_root r some_hash first len run =
      ensure_then (not (is_empty ps)) invalid_proof _ (not_empty ps some_hash)
      ∙ then_of_ok (seed_and_start (m == 2 ^ trailing_zeros 64 m) old_root ps) _ r first
      ∙ ensure_then _ invalid_proof _ ((==_iff _ _).1 len)
      ∙ run

  -- A path that leads to both roots, after its seed or by itself.
  pub path_accepted :
      (m n : ℕ) (seed old_root new_root : Sha256Hash) (path : List Sha256Hash)
      → m < 2 ^ 64
      → (m ≡ 2 ^ trailing_zeros 64 m → old_root ≡ seed)
      → length path
        ≡ (inner_proof_size (m - 1) n - trailing_zeros 64 m)
          + count_ones 64 (shift_right (m - 1) (inner_proof_size (m - 1) n))
      → 0 < length path
      → chained sha256
          (inner_proof_size (m - 1) n - trailing_zeros 64 m)
          (shift_right (m - 1) (trailing_zeros 64 m))
          0
          path
          seed
        ≡ old_root
      → chain_border_right sha256
          (inner_loop sha256 seed
            (shift_right (m - 1) (trailing_zeros 64 m))
            0
            (take (inner_proof_size (m - 1) n - trailing_zeros 64 m) path))
          (drop (inner_proof_size (m - 1) n - trailing_zeros 64 m) path)
        ≡ new_root
      → (ps : List Sha256Hash) × (verify_growth sha256 m n ps old_root new_root ≡ ok tt)
  unfolding seed_and_start decompose_inclusion_proof
  path_accepted m n seed old_root new_root path u64 whole len some_hash old new =
      let j = inner_proof_size (m - 1) n in
      let s = trailing_zeros 64 m in
      let counted : length path ≡ (j - s) + (decompose_inclusion_proof (m - 1) n).1 =
        len
        ∙ sym (
            ap (λ x. (j - s) + count_ones 64 x)
              (checked_shr_or_zero-shift_right (m - 1) j (omega arith))) in
      let run =
        verify_chains_accepts seed path (j - s) (shift_right (m - 1) s) old_root new_root old new in
      elim (ℕ_discrete m (2 ^ s)) [
        | yes power ↦ (
          path,
          verify_growth_accepts m n path old_root new_root (old_root, 0) some_hash
              (ap (λ b. seed_and_start b old_root path) ((==_iff _ _).1 power))
              (omega (arith, counted))
              (ap
                  (λ x.
                    verify_chains sha256 x path (j - s) (shift_right (m - 1) s) old_root new_root)
                  (whole power)
                ∙ run),
        )
        | no other ↦ (
          seed ∷ path,
          verify_growth_accepts m n (seed ∷ path) old_root new_root (seed, 1) (omega arith)
              (ap (λ b. seed_and_start b old_root (seed ∷ path)) (not_equal m (2 ^ s) other))
              (omega (arith, counted)) run,
        )
      ]
