-- ===== src/Merkle/Consistency/Growth.antt =====
-- `verify_consistency_proof` on two trees of different sizes: if both chains end at the given roots,
-- and the new root is the tree's, then the old root is that of the tree's first leaves.
use sigstore_rust.Common.{
  ℕ, zero, suc, ◌+◌, ◌-◌, ◌^◌, ◌<◌, ◌≤◌, List, [], ◌∷◌, ◌++◌, Bytes, length, take, drop, arith, ◌≡◌,
  refl, ap, ◌∙◌, sym, get_elem?, some, ◌⊎◌, inl, reduce,
}
use sigstore_rust.Common.Bits.{
  shift_right, shift_right-shift_right, shift_right-le, shift_right_le, count_ones, Meet,
  Meet-shift_right, Meet-le, Halves, Halves-pred,
}
use sigstore_rust.Merkle.Tree.{Sha256Hash}
use sigstore_rust.Merkle.Inclusion.Levels.{Wide, inclusion_loop-level_path}
use sigstore_rust.Merkle.Inclusion.Sound.{inclusion_loop_sound}
use sigstore_rust.Merkle.Spec.Levels.{collapse, level_path}
use sigstore_rust.Merkle.Spec.Collisions.{Collision}
use sigstore_rust.Merkle.Consistency.{inner_loop, chain_border_right}
use sigstore_rust.Merkle.Consistency.Prefix.{
  take-suc, collapse-take, collapse-add, length-collapse, collapse-Wide,
}
use sigstore_rust.Merkle.Consistency.Chains.{new_chain, length-level_path-Meet, chained, old_chain}

pub single_inj : {A : Type 0} {x y : A} → (x ∷ []) ≡ (y ∷ []) → x ≡ y
single_inj e = cc

steps_left : (j a b : ℕ) → Meet j a b → a < b → 0 < j
steps_left zero a b m lt = absurd (omega (arith, m))
steps_left (suc j) a b m lt = omega arith

get_elem?_below :
    {A : Type 0} (xs : List A) (i : ℕ) → i < length xs → (x : A) × (get_elem? xs i ≡ some x)
get_elem?_below [] i h = absurd (omega arith)
get_elem?_below (x ∷ xs) zero h = (x, refl)
get_elem?_below (x ∷ xs) (suc i) h = get_elem?_below xs i (omega arith)

module _ (sha256 : Bytes → Sha256Hash) where
  module _ (s j k m last : ℕ) (hs : List Sha256Hash) (halves : Halves s m) (pos : 0 < m)
      (n : suc last ≡ length hs) (grown : m ≤ last) (u64 : last < 2 ^ 64)
      (met : Meet j (m - 1) last) (enough : length hs ≤ 2 ^ k) where
    -- The first node of the proof, and its place in its level.
    abbrev index : ℕ
    index = shift_right (m - 1) s

    abbrev last_index : ℕ
    last_index = shift_right last s

    abbrev level : List Sha256Hash
    level = collapse sha256 s hs

    index-last_index : index < last_index
    index-last_index = omega (arith, Halves-pred s m halves pos, shift_right-le m last s grown)

    index-Meet : Meet (j - s) index last_index
    index-Meet = Meet-shift_right j s (m - 1) last met

    level_length : suc last_index ≡ length level
    level_length = length-collapse sha256 s hs last n

    level_enough : length level ≤ 2 ^ k
    level_enough = omega (arith, level_length, shift_right_le last s)

    length-path :
        length (level_path sha256 k level index) ≡ (j - s) + count_ones 64 (shift_right (m - 1) j)
    length-path =
        length-level_path-Meet sha256 k 64 (j - s) level index last_index level_length level_enough
          (omega (arith, index-last_index)) (omega (arith, shift_right_le (m - 1) s)) index-Meet
        ∙ ap (λ x. (j - s) + count_ones 64 x)
            (shift_right-shift_right (m - 1) s j (Meet-le j s (m - 1) last met index-last_index))

    -- The old tree's level, if the proof begins at the node.
    cut_level :
        (seed : Sha256Hash)
        → get_elem? level index ≡ some seed
        → collapse sha256 s (take m hs) ≡ take index level ++ (seed ∷ [])
    cut_level seed g =
        collapse-take sha256 s hs m halves (omega arith)
        ∙ ap (λ x. take x level) (sym (Halves-pred s m halves pos))
        ∙ take-suc level index g

    pub growth_sound :
        (sha256_width : (b : Bytes) → length (sha256 b) ≡ 32) (seed : Sha256Hash)
        (proof : List Sha256Hash) (old_root new_root : Sha256Hash)
        → Wide hs
        → length seed ≡ 32
        → Wide proof
        → length proof ≡ (j - s) + count_ones 64 (shift_right (m - 1) j)
        → collapse sha256 (s + k) hs ≡ new_root ∷ []
        → chained sha256 (j - s) index 0 proof seed ≡ old_root
        → chain_border_right sha256
            (inner_loop sha256 seed index 0 (take (j - s) proof))
            (drop (j - s) proof)
          ≡ new_root
        → (collapse sha256 (s + k) (take m hs) ≡ old_root ∷ []) ⊎ Collision sha256
    growth_sound sha256_width seed proof old_root new_root wh ws wp len top old new =
        reduce
          (inclusion_loop_sound sha256 sha256_width k level index last_index seed new_root proof
            level_length level_enough (omega (arith, index-last_index))
            (collapse-Wide sha256 sha256_width s hs wh) ws wp (len ∙ sym length-path)
            (sym (collapse-add sha256 s k hs) ∙ top)
            (sym (new_chain sha256 (j - s) proof seed index 0 index last_index refl index-Meet)
              ∙ new))
          (λ g. inl (
            collapse-add sha256 s k (take m hs)
            ∙ ap (collapse sha256 k) (cut_level seed (g.0))
            ∙ old_chain sha256 k (j - s) level seed index 0 index last_index level_length
                level_enough (omega (arith, index-last_index)) refl index-Meet
            ∙ ap (λ z. chained sha256 (j - s) index 0 z seed ∷ []) (sym (g.1))
            ∙ ap (λ z. z ∷ []) old))

    growth_path :
        (seed old_root new_root : Sha256Hash)
        → get_elem? level index ≡ some seed
        → collapse sha256 (s + k) hs ≡ new_root ∷ []
        → collapse sha256 (s + k) (take m hs) ≡ old_root ∷ []
        → (length (level_path sha256 k level index)
            ≡ (j - s) + count_ones 64 (shift_right (m - 1) j))
          × (0 < length (level_path sha256 k level index))
          × (chained sha256 (j - s) index 0 (level_path sha256 k level index) seed ≡ old_root)
          × (chain_border_right sha256
                (inner_loop sha256 seed index 0 (take (j - s) (level_path sha256 k level index)))
                (drop (j - s) (level_path sha256 k level index))
              ≡ new_root)
    growth_path seed old_root new_root g top bottom = (
      length-path,
      omega (arith, length-path, steps_left (j - s) index last_index index-Meet index-last_index),
      single_inj (
          sym (
            old_chain sha256 k (j - s) level seed index 0 index last_index level_length level_enough
              (omega (arith, index-last_index)) refl index-Meet)
          ∙ ap (collapse sha256 k) (sym (cut_level seed g))
          ∙ sym (collapse-add sha256 s k (take m hs))
          ∙ bottom),
      new_chain sha256 (j - s) (level_path sha256 k level index) seed index 0 index last_index refl
            index-Meet
          ∙ inclusion_loop-level_path sha256 k level index last_index seed new_root level_length
              level_enough g (omega (arith, index-last_index))
              (sym (collapse-add sha256 s k hs) ∙ top),
    )

    -- The other way: there is the node, and its audit path leads to both roots.
    pub growth_complete :
        (old_root new_root : Sha256Hash)
        → collapse sha256 (s + k) hs ≡ new_root ∷ []
        → collapse sha256 (s + k) (take m hs) ≡ old_root ∷ []
        → (seed : Sha256Hash) × (path : List Sha256Hash) × (collapse sha256 s (take m hs)
            ≡ take index level ++ (seed ∷ []))
          × (length path ≡ (j - s) + count_ones 64 (shift_right (m - 1) j))
          × (0 < length path)
          × (chained sha256 (j - s) index 0 path seed ≡ old_root)
          × (chain_border_right sha256
                (inner_loop sha256 seed index 0 (take (j - s) path))
                (drop (j - s) path)
              ≡ new_root)
    growth_complete old_root new_root top bottom =
        let (seed, g) =
          get_elem?_below level index (omega (arith, level_length, index-last_index)) in
        let (len, some_hash, old, new) = growth_path seed old_root new_root g top bottom in
        (seed, level_path sha256 k level index, cut_level seed g, len, some_hash, old, new)
