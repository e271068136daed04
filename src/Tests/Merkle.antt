-- ===== src/Tests/Merkle.antt =====
-- Runs of crates/sigstore-merkle, over a toy function in place of SHA-256.
use sigstore_rust.Common.{
  ℕ, ◌+◌, ◌*◌, [], ◌∷◌, Bytes, length, refl, ◌≡◌, arith, ◌⊎◌, get_elem?, some, dec_lt, List, take,
}
use sigstore_rust.Common.Bits.{leading_zeros, trailing_zeros, count_ones, checked_shr_or_zero}
use sigstore_rust.Common.Fallible.{ok, err}
use sigstore_rust.Merkle.Error.{invalid_leaf_index, invalid_proof}
use sigstore_rust.Merkle.Tree.{Sha256Hash, hash_leaf, hash_children}
use sigstore_rust.Merkle.Inclusion.{
  verify_inclusion_proof, inclusion_loop, inclusion_step, expected_inclusion_proof_length,
}
use sigstore_rust.Merkle.Inclusion.Correct.{
  verify_inclusion_proof-audit_path, verify_inclusion_proof_sound,
}
use sigstore_rust.Merkle.Inclusion.Bound.{Holds, verify_inclusion_proof_binds}
use sigstore_rust.Merkle.Consistency.{
  verify_consistency_proof, verify_growth, verify_chains, decompose_inclusion_proof,
  inner_proof_size, seed_and_start, inner_loop, inner_step, inner_right_loop, inner_right_step,
  chain_border_right,
}
use sigstore_rust.Merkle.Consistency.AppendOnly.{verify_consistency_proof_sound}
use sigstore_rust.Merkle.Consistency.Complete.{verify_consistency_proof_complete}
use sigstore_rust.Merkle.Spec.Collisions.{Collision}
use sigstore_rust.Merkle.Spec.Tree.{
  MerkleTree, leaf, node, leaves, IsRfc6962, root, audit_path, leaf_hashes,
}

-- The bytes with a weight by place, in front of 31 zeros.
abbrev weigh : Bytes → ℕ
weigh [] = 1
weigh (b ∷ bs) = b + 3 * weigh bs

abbrev toy : Bytes → Sha256Hash
toy bs =
    weigh bs
    ∷ 0
    ∷ 0
    ∷ 0
    ∷ 0
    ∷ 0
    ∷ 0
    ∷ 0
    ∷ 0
    ∷ 0
    ∷ 0
    ∷ 0
    ∷ 0
    ∷ 0
    ∷ 0
    ∷ 0
    ∷ 0
    ∷ 0
    ∷ 0
    ∷ 0
    ∷ 0
    ∷ 0
    ∷ 0
    ∷ 0
    ∷ 0
    ∷ 0
    ∷ 0
    ∷ 0
    ∷ 0
    ∷ 0
    ∷ 0
    ∷ 0
    ∷ []

toy_width : (b : Bytes) → length (toy b) ≡ 32
toy_width b = refl

abbrev three : MerkleTree
three = node (node (leaf (1 ∷ [])) (leaf (2 ∷ []))) (leaf (3 ∷ []))

three-IsRfc6962 : IsRfc6962 three
three-IsRfc6962 = (1, (tt, tt), tt, omega arith)

three_accepted :
    verify_inclusion_proof toy (toy (0 ∷ 3 ∷ [])) 2 3 (audit_path toy three 2) (root toy three)
    ≡ ok tt
unfolding verify_inclusion_proof inclusion_loop inclusion_step expected_inclusion_proof_length
    dec_lt hash_leaf hash_children
three_accepted = refl

out_of_range :
    verify_inclusion_proof toy (toy (0 ∷ 3 ∷ [])) 3 3 [] (root toy three) ≡ err invalid_leaf_index
unfolding verify_inclusion_proof
out_of_range = refl

too_short :
    verify_inclusion_proof toy (toy (0 ∷ 3 ∷ [])) 2 3 [] (root toy three) ≡ err invalid_proof
unfolding verify_inclusion_proof expected_inclusion_proof_length dec_lt
too_short = refl

verify_inclusion_proof-audit_path_example :
    verify_inclusion_proof toy (toy (0 ∷ 3 ∷ [])) 2 3 (audit_path toy three 2) (root toy three)
    ≡ ok tt
unfolding hash_leaf
verify_inclusion_proof-audit_path_example =
    verify_inclusion_proof-audit_path toy three 2 (toy (0 ∷ 3 ∷ [])) three-IsRfc6962 refl

verify_inclusion_proof_sound_example :
    ((get_elem? (leaf_hashes toy three) 2 ≡ some (toy (0 ∷ 3 ∷ [])))
      × (audit_path toy three 2 ≡ audit_path toy three 2))
    ⊎ Collision toy
unfolding hash_leaf hash_children
verify_inclusion_proof_sound_example =
    verify_inclusion_proof_sound toy toy_width three 2 (toy (0 ∷ 3 ∷ [])) (audit_path toy three 2)
      three-IsRfc6962 refl (refl, tt) three_accepted

verify_inclusion_proof_binds_example : Holds three (3 ∷ []) ⊎ Collision toy
unfolding hash_leaf hash_children
verify_inclusion_proof_binds_example =
    verify_inclusion_proof_binds toy toy_width three (3 ∷ []) 2 3 (audit_path toy three 2)
      (refl, tt) three_accepted

-- The log of three entries, then of four.
abbrev four : MerkleTree
four = node (node (leaf (1 ∷ [])) (leaf (2 ∷ []))) (node (leaf (3 ∷ [])) (leaf (4 ∷ [])))

four-IsRfc6962 : IsRfc6962 four
four-IsRfc6962 = (1, (tt, tt), (0, tt, tt, omega arith), omega arith)

abbrev three_to_four : List Sha256Hash
three_to_four =
    toy (0 ∷ 3 ∷ []) ∷ toy (0 ∷ 4 ∷ []) ∷ root toy (node (leaf (1 ∷ [])) (leaf (2 ∷ []))) ∷ []

three_consistent :
    verify_consistency_proof toy 3 4 three_to_four (root toy three) (root toy four) ≡ ok tt
unfolding verify_consistency_proof verify_growth verify_chains decompose_inclusion_proof
    inner_proof_size seed_and_start inner_loop inner_step inner_right_loop inner_right_step
    chain_border_right hash_leaf hash_children leading_zeros trailing_zeros count_ones
    checked_shr_or_zero
three_consistent = refl

no_proof : verify_consistency_proof toy 3 4 [] (root toy three) (root toy four) ≡ err invalid_proof
unfolding verify_consistency_proof verify_growth
no_proof = refl

verify_consistency_proof_sound_example : (leaves three ≡ take 3 (leaves four)) ⊎ Collision toy
unfolding hash_leaf hash_children
verify_consistency_proof_sound_example =
    verify_consistency_proof_sound toy toy_width three four three_to_four three-IsRfc6962
      four-IsRfc6962 (omega arith) (refl, (refl, (refl, tt))) three_consistent

verify_consistency_proof_complete_example :
    (ps : List Sha256Hash) × (verify_consistency_proof toy 3 4 ps (root toy three) (root toy four)
      ≡ ok tt)
verify_consistency_proof_complete_example =
    verify_consistency_proof_complete toy three four three-IsRfc6962 four-IsRfc6962 (omega arith)
      refl
