-- ===== src/Merkle/Inclusion/Length.antt =====
-- The number of proof hashes that `verify_inclusion_proof` asks for is the length of the audit path.
use mathlib.Core.Logic.{dif_pos, dif_neg}
use native.Mathlib.Nat.{pow-suc}
use native.Mathlib.Bridge.{le_prop}
use mathlib.Core.WellFounded.{Acc}
use sigstore_rust.Common.{
  ℕ, zero, suc, ◌+◌, ◌-◌, ◌/◌, ◌%◌, ◌^◌, ◌<◌, ◌≤◌, List, [], ◌∷◌, Bytes, length, arith, ◌≡◌, refl,
  length-append, ◌∙◌, dec_lt, ◌==◌, ◌&&◌, not, if◌then◌else◌,
}
use sigstore_rust.Common.Order.{lt_wf}
use sigstore_rust.Merkle.Tree.{Sha256Hash}
use sigstore_rust.Merkle.Inclusion.{
  next_size-lt, expected_length_loop, expected_inclusion_proof_length,
}
use sigstore_rust.Merkle.Spec.Levels.{
  sibling, parents, level_path, left, right, promoted, place, length-parents,
}

-- `count` after one round of the loop.
abbrev counted : ℕ → ℕ → ℕ → ℕ
counted count index size = if not (size % 2 == 1 && index == size - 1) then count + 1 else count

expected_length_loop_step :
    (count index size : ℕ) (smaller : (m : ℕ) → m < size → Acc ◌<◌ m) (more : 1 < size)
    → expected_length_loop count index size (Acc.intro size smaller)
      ≡ expected_length_loop
          (counted count index size)
          (index / 2)
          (size / 2 + size % 2)
          (smaller _ (next_size-lt size more))
unfolding expected_length_loop
expected_length_loop_step count index size smaller more = dif_pos (dec_lt 1 size) le_prop more _ _

module _ (sha256 : Bytes → Sha256Hash) where
  pub level_path-single :
      (k : ℕ) (hs : List Sha256Hash) (i : ℕ) → length hs ≡ 1 → i < 1 → level_path sha256 k hs i ≡ []
  unfolding level_path
  level_path-single k [] i e h = absurd (omega arith)
  level_path-single zero (x ∷ []) i e h = refl
  level_path-single (suc k) (x ∷ []) i e h = level_path-single k (x ∷ []) (i / 2) e (omega arith)
  level_path-single k (x ∷ y ∷ zs) i e h = absurd (omega arith)

  -- The loop counts the entry of one level.
  counted-sibling :
      (hs : List Sha256Hash) (count i : ℕ)
      → i < length hs
      → counted count i (length hs) ≡ count + length (sibling hs i)
  counted-sibling hs count i h = elim (place sha256 hs i h) [
    | left a b par lt here sib up ↦ rw sib (ground arith)
    | right a b par lt here sib up ↦ rw sib (ground arith)
    | promoted a par lt here sib up ↦ rw sib (ground arith)
  ]

  pub length-level_path :
      (k : ℕ) (hs : List Sha256Hash) (i : ℕ)
      → length (level_path sha256 (suc k) hs i)
        ≡ length (sibling hs i) + length (level_path sha256 k (parents sha256 hs) (i / 2))
  unfolding level_path
  length-level_path k hs i = length-append (sibling hs i) _

  expected_length_loop-level_path :
      (k : ℕ) (hs : List Sha256Hash) (count i size : ℕ) (w : Acc ◌<◌ size)
      → size ≡ length hs
      → i < size
      → size ≤ 2 ^ k
      → expected_length_loop count i size w ≡ count + length (level_path sha256 k hs i)
  unfolding expected_length_loop
  expected_length_loop-level_path zero hs count i size (Acc.intro _ smaller) e h b =
      dif_neg (dec_lt 1 size) (omega arith) _ _
      ∙ (rw (level_path-single zero hs i (omega arith) (omega arith)) (omega arith))
  expected_length_loop-level_path (suc k) hs count i size (Acc.intro _ smaller) e h b =
      elim (dec_lt 1 size) [
        | yes more ↦
            expected_length_loop_step count i size smaller more
            ∙ expected_length_loop-level_path k (parents sha256 hs) (counted count i size) (i / 2) _
                (smaller _ (next_size-lt size more)) (omega (arith, length-parents sha256 hs))
                (omega arith) (omega (arith, pow-suc 2 k))
            ∙ ground (arith, counted-sibling hs count i, length-level_path k hs i)
        | no few ↦
            dif_neg (dec_lt 1 size) few _ _
            ∙ (rw (level_path-single (suc k) hs i (omega arith) (omega arith)) (omega arith))
      ]

  -- For the leaves of a tree the expected length is that of the audit path.
  pub expected_inclusion_proof_length-level_path :
      (k : ℕ) (hs : List Sha256Hash) (i : ℕ)
      → i < length hs
      → length hs ≤ 2 ^ k
      → expected_inclusion_proof_length i (length hs) ≡ length (level_path sha256 k hs i)
  unfolding expected_inclusion_proof_length
  expected_inclusion_proof_length-level_path k hs i h b = ground (
    arith,
    expected_length_loop-level_path k hs 0 i (length hs) (lt_wf.apply (length hs)) refl h b,
    level_path-single k hs i,
  )
