-- ===== src/Merkle/Consistency/Chains.antt =====
-- The two chains of `verify_consistency_proof`: the new root's is the loop of
-- `verify_inclusion_proof`, and on an audit path the old root's ends at the root of the first leaves.
use native.Mathlib.Nat.{pow-suc}
use sigstore_rust.Common.{
  ℕ, zero, suc, ◌+◌, ◌/◌, ◌%◌, ◌^◌, ◌<◌, ◌≤◌, List, [], ◌∷◌, ◌++◌, Bytes, length, take, drop, arith,
  ◌≡◌, refl, ap, ◌∙◌, sym,
}
use sigstore_rust.Common.Bits.{shift_right, shift_right-suc, count_ones, Meet}
use sigstore_rust.Merkle.Tree.{Sha256Hash, hash_children}
use sigstore_rust.Merkle.Inclusion.{inclusion_step, inclusion_loop}
use sigstore_rust.Merkle.Inclusion.Length.{level_path-single, length-level_path}
use sigstore_rust.Merkle.Spec.Levels.{
  sibling, parents, collapse, level_path, left, right, promoted, place, length-parents,
}
use sigstore_rust.Merkle.Consistency.{
  inner_step, inner_loop, inner_right_step, inner_right_loop, chain_border_right,
}
use sigstore_rust.Merkle.Consistency.Prefix.{parents-cut_even, parents-cut_odd}

count_ones-zero : (w : ℕ) → count_ones w 0 ≡ 0
unfolding count_ones
count_ones-zero zero = refl
count_ones-zero (suc w) = omega (arith, count_ones-zero w)

module _ (sha256 : Bytes → Sha256Hash) where
  border_loop :
      (ps : List Sha256Hash) (h : Sha256Hash) (i last : ℕ)
      → i ≡ last
      → chain_border_right sha256 h ps ≡ inclusion_loop sha256 h i last ps
  unfolding chain_border_right inclusion_loop inclusion_step
  border_loop [] h i last e = refl
  border_loop (p ∷ ps) h i last e =
      ground (arith, border_loop ps (hash_children sha256 p h) (i / 2) (last / 2))

  inner_step-inclusion_step :
      (h p : Sha256Hash) (index b i last : ℕ)
      → shift_right index b ≡ i
      → i < last
      → inner_step sha256 h index b p ≡ inclusion_step sha256 h i last p
  unfolding inner_step inclusion_step
  inner_step-inclusion_step h p index b i last e lt = ground arith

  -- The new root's chain.
  pub new_chain :
      (j : ℕ) (ps : List Sha256Hash) (h : Sha256Hash) (index b i last : ℕ)
      → shift_right index b ≡ i
      → Meet j i last
      → chain_border_right sha256 (inner_loop sha256 h index b (take j ps)) (drop j ps)
        ≡ inclusion_loop sha256 h i last ps
  unfolding inner_loop inclusion_loop
  new_chain zero ps h index b i last e m = border_loop ps h i last m
  new_chain (suc j) [] h index b i last e m = unfold chain_border_right in refl
  new_chain (suc j) (p ∷ ps) h index b i last e (lt, m) =
      ap
        (λ x. chain_border_right sha256 (inner_loop sha256 x index (suc b) (take j ps)) (drop j ps))
        (inner_step-inclusion_step h p index b i last e lt)
      ∙ new_chain j ps (inclusion_step sha256 h i last p) index (suc b) (i / 2) (last / 2)
          (shift_right-suc index b ∙ ap (λ x. x / 2) e) m

  -- The path of a level's last node has a hash for each bit that is set.
  length-level_path-last :
      (k w : ℕ) (hs : List Sha256Hash) (i : ℕ)
      → suc i ≡ length hs
      → length hs ≤ 2 ^ k
      → i < 2 ^ w
      → length (level_path sha256 k hs i) ≡ count_ones w i
  unfolding level_path count_ones
  length-level_path-last zero w hs i n b lt =
      let first : i ≡ 0 = omega arith in omega (arith, count_ones-zero w, ap (count_ones w) first)
  length-level_path-last (suc k) zero hs i n b lt =
      ap length (level_path-single sha256 (suc k) hs i (omega arith) (omega arith))
  length-level_path-last (suc k) (suc w) hs i n b lt =
      let above : length (level_path sha256 k (parents sha256 hs) (i / 2)) ≡ count_ones w (i / 2) =
        length-level_path-last k w (parents sha256 hs) (i / 2)
          (omega (arith, length-parents sha256 hs))
          (omega (arith, length-parents sha256 hs, pow-suc 2 k)) (omega (arith, pow-suc 2 w)) in
      elim (place sha256 hs i (omega arith)) [
        | left a s par here get sib up ↦ absurd (omega arith)
        | right a s par here get sib up ↦
            omega (arith, length-level_path sha256 k hs i, ap length sib, above)
        | promoted a par here get sib up ↦
            omega (arith, length-level_path sha256 k hs i, ap length sib, above)
      ]

  sibling-below : (hs : List Sha256Hash) (i : ℕ) → suc i < length hs → length (sibling hs i) ≡ 1
  sibling-below hs i h = elim (place sha256 hs i (omega arith)) [
    | left a s par here get sib up ↦ ap length sib
    | right a s par here get sib up ↦ ap length sib
    | promoted a par here get sib up ↦ absurd (omega arith)
  ]

  -- The path of a node has a hash for each level where it is not the last, then one for each bit.
  pub length-level_path-Meet :
      (k w j : ℕ) (hs : List Sha256Hash) (i last : ℕ)
      → suc last ≡ length hs
      → length hs ≤ 2 ^ k
      → i ≤ last
      → i < 2 ^ w
      → Meet j i last
      → length (level_path sha256 k hs i) ≡ j + count_ones w (shift_right i j)
  unfolding level_path
  length-level_path-Meet k w zero hs i last n b le lt m =
      omega (arith, length-level_path-last k w hs i (omega arith) b lt)
  length-level_path-Meet zero w (suc j) hs i last n b le lt m = absurd (omega (arith, m.0))
  length-level_path-Meet (suc k) w (suc j) hs i last n b le lt (below, m) = omega (
    arith,
    length-level_path sha256 k hs i,
    sibling-below hs i (omega arith),
    length-level_path-Meet k w j (parents sha256 hs) (i / 2) (last / 2)
        (omega (arith, length-parents sha256 hs))
        (omega (arith, length-parents sha256 hs, pow-suc 2 k)) (omega arith) (omega arith) m,
  )

  -- The old root's chain on the path of the old tree's last node: the levels of the old tree are
  -- those of the new one up to that node, then `o`.
  old_border :
      (k : ℕ) (hs : List Sha256Hash) (o : Sha256Hash) (i : ℕ)
      → suc i ≡ length hs
      → length hs ≤ 2 ^ k
      → collapse sha256 k (take i hs ++ (o ∷ []))
        ≡ chain_border_right sha256 o (level_path sha256 k hs i) ∷ []
  unfolding level_path collapse chain_border_right
  old_border zero hs o i n w = let first : i ≡ 0 = omega arith in rw first refl
  old_border (suc k) hs o i n w =
      let path = level_path sha256 k (parents sha256 hs) (i / 2) in
      let ih : (o' : Sha256Hash)
          → collapse sha256 k (take (i / 2) (parents sha256 hs) ++ (o' ∷ []))
            ≡ chain_border_right sha256 o' (level_path sha256 k (parents sha256 hs) (i / 2)) ∷ [] =
        λ o'.
          old_border k (parents sha256 hs) o' (i / 2) (omega (arith, length-parents sha256 hs))
            (omega (arith, length-parents sha256 hs, pow-suc 2 k)) in
      elim (place sha256 hs i (omega arith)) [
        | left a s par here get sib up ↦ absurd (omega arith)
        | right s a par here get sib up ↦
            ap (collapse sha256 k) (parents-cut_odd sha256 hs i s o par here sib)
            ∙ ih (hash_children sha256 s o)
            ∙ sym (ap (λ z. chain_border_right sha256 o (z ++ path) ∷ []) sib)
        | promoted a par here get sib up ↦
            ap (collapse sha256 k) (parents-cut_even sha256 hs i o par (omega arith))
            ∙ ih o
            ∙ sym (ap (λ z. chain_border_right sha256 o (z ++ path) ∷ []) sib)
      ]

  right_step_even :
      (o p : Sha256Hash) (index b i : ℕ)
      → shift_right index b ≡ i
      → i % 2 ≡ 0
      → o ≡ inner_right_step sha256 o index b p
  unfolding inner_right_step
  right_step_even o p index b i e par = ground arith

  right_step_odd :
      (o p : Sha256Hash) (index b i : ℕ)
      → shift_right index b ≡ i
      → i % 2 ≡ 1
      → hash_children sha256 p o ≡ inner_right_step sha256 o index b p
  unfolding inner_right_step
  right_step_odd o p index b i e par = ground arith

  -- The whole chain, with the rest of the path.
  abbrev pub chained : ℕ → ℕ → ℕ → List Sha256Hash → Sha256Hash → Sha256Hash
  chained j index b path o =
      chain_border_right sha256 (inner_right_loop sha256 o index b (take j path)) (drop j path)

  pub old_chain :
      (k j : ℕ) (hs : List Sha256Hash) (o : Sha256Hash) (index b i last : ℕ)
      → suc last ≡ length hs
      → length hs ≤ 2 ^ k
      → i ≤ last
      → shift_right index b ≡ i
      → Meet j i last
      → collapse sha256 k (take i hs ++ (o ∷ []))
        ≡ chained j index b (level_path sha256 k hs i) o ∷ []
  unfolding level_path collapse inner_right_loop
  old_chain k zero hs o index b i last n w le e m = old_border k hs o i (omega arith) w
  old_chain zero (suc j) hs o index b i last n w le e m = absurd (omega (arith, m.0))
  old_chain (suc k) (suc j) hs o index b i last n w le e (lt, m) =
      let path = level_path sha256 k (parents sha256 hs) (i / 2) in
      let ih : (o' : Sha256Hash)
          → collapse sha256 k (take (i / 2) (parents sha256 hs) ++ (o' ∷ []))
            ≡ chained j index (suc b) (level_path sha256 k (parents sha256 hs) (i / 2)) o' ∷ [] =
        λ o'.
          old_chain k j (parents sha256 hs) o' index (suc b) (i / 2) (last / 2)
            (omega (arith, length-parents sha256 hs))
            (omega (arith, length-parents sha256 hs, pow-suc 2 k)) (omega arith)
            (shift_right-suc index b ∙ ap (λ x. x / 2) e) m in
      elim (place sha256 hs i (omega arith)) [
        | left a s par here get sib up ↦
            ap (collapse sha256 k) (parents-cut_even sha256 hs i o par (omega arith))
            ∙ ih o
            ∙ ap (λ x. chained j index (suc b) path x ∷ []) (right_step_even o s index b i e par)
            ∙ sym (ap (λ z. chained (suc j) index b (z ++ path) o ∷ []) sib)
        | right s a par here get sib up ↦
            ap (collapse sha256 k) (parents-cut_odd sha256 hs i s o par here sib)
            ∙ ih (hash_children sha256 s o)
            ∙ ap (λ x. chained j index (suc b) path x ∷ []) (right_step_odd o s index b i e par)
            ∙ sym (ap (λ z. chained (suc j) index b (z ++ path) o ∷ []) sib)
        | promoted a par here get sib up ↦ absurd (omega arith)
      ]
