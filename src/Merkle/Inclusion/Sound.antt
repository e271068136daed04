-- ===== src/Merkle/Inclusion/Sound.antt =====
-- A run of the loop of `verify_inclusion_proof` that ends at a tree's root had the leaf and the audit
-- path, or shows a collision of the hash function.
use native.Mathlib.Nat.{pow-suc}
use sigstore_rust.Common.{
  ℕ, zero, suc, ◌/◌, ◌%◌, ◌^◌, ◌<◌, ◌≤◌, List, [], ◌∷◌, Bytes, length, arith, ◌≡◌, refl, ◌∙◌, ap,
  sym, get_elem?, some, ◌⊎◌, inl, reduce,
}
use sigstore_rust.Merkle.Tree.{Sha256Hash, hash_children}
use sigstore_rust.Merkle.Inclusion.{inclusion_loop}
use sigstore_rust.Merkle.Inclusion.Length.{length-level_path}
use sigstore_rust.Merkle.Inclusion.Levels.{
  Wide, parents-Wide, get_elem?-Wide, sibling-Wide, step_left, step_right, loop_promoted,
}
use sigstore_rust.Merkle.Spec.Levels.{
  sibling, parents, collapse, level_path, left, right, promoted, place, length-parents,
}
use sigstore_rust.Merkle.Spec.Collisions.{Collision, hash_children_inj}

module _ (sha256 : Bytes → Sha256Hash) (sha256_width : (b : Bytes) → length (sha256 b) ≡ 32) where
  -- What a run from `h` with the proof `ps` must have had.
  abbrev Genuine : ℕ → List Sha256Hash → ℕ → Sha256Hash → List Sha256Hash → Type 0
  Genuine k hs i h ps = (get_elem? hs i ≡ some h) × (ps ≡ level_path sha256 k hs i)

  node_width : (l r : Sha256Hash) → length (hash_children sha256 l r) ≡ 32
  unfolding hash_children
  node_width l r = sha256_width _

  -- One level down, where the node has a sibling on the right, on the left, or none.
  -- `i` in a level `hs`, with what is known of the level above: one lemma for each place of `i`.
  module _ (k : ℕ) (hs : List Sha256Hash) (i last : ℕ) (h root : Sha256Hash) (wh : Wide hs)
      (w : length h ≡ 32)
      (above : (h' : Sha256Hash) (ps' : List Sha256Hash)
        → length h' ≡ 32
        → Wide ps'
        → length ps' ≡ length (level_path sha256 k (parents sha256 hs) (i / 2))
        → inclusion_loop sha256 h' (i / 2) (last / 2) ps' ≡ root
        → Genuine k (parents sha256 hs) (i / 2) h' ps' ⊎ Collision sha256) where
    sound_left :
        (a b : Sha256Hash) (ps : List Sha256Hash)
        → i % 2 ≡ 0
        → i < last
        → get_elem? hs i ≡ some a
        → sibling hs i ≡ b ∷ []
        → get_elem? (parents sha256 hs) (i / 2) ≡ some (hash_children sha256 a b)
        → Wide ps
        → length ps ≡ length (level_path sha256 (suc k) hs i)
        → inclusion_loop sha256 h i last ps ≡ root
        → Genuine (suc k) hs i h ps ⊎ Collision sha256
    unfolding level_path inclusion_loop
    sound_left a b [] par lt here sib up wp n r =
        absurd (omega (arith, length-level_path sha256 k hs i, ap length sib))
    sound_left a b (p ∷ ps) par lt here sib up wp n r =
        reduce
          (above (hash_children sha256 h p) ps (node_width h p) wp.1
            (omega (arith, length-level_path sha256 k hs i, ap length sib))
            (rw (step_left sha256 h p i last par lt) at r))
          (λ g.
            reduce
              (hash_children_inj sha256 a b h p (get_elem?-Wide hs i wh here ∙ sym w) (cc (g.0)))
              (λ e. inl (cc (e.0), cc (e.1, g.1))))

    sound_right :
        (a b : Sha256Hash) (ps : List Sha256Hash)
        → i % 2 ≡ 1
        → length a ≡ 32
        → get_elem? hs i ≡ some b
        → sibling hs i ≡ a ∷ []
        → get_elem? (parents sha256 hs) (i / 2) ≡ some (hash_children sha256 a b)
        → Wide ps
        → length ps ≡ length (level_path sha256 (suc k) hs i)
        → inclusion_loop sha256 h i last ps ≡ root
        → Genuine (suc k) hs i h ps ⊎ Collision sha256
    unfolding level_path inclusion_loop
    sound_right a b [] par wa here sib up wp n r =
        absurd (omega (arith, length-level_path sha256 k hs i, ap length sib))
    sound_right a b (p ∷ ps) par wa here sib up wp n r =
        reduce
          (above (hash_children sha256 p h) ps (node_width p h) wp.1
            (omega (arith, length-level_path sha256 k hs i, ap length sib))
            (rw (step_right sha256 h p i last par) at r))
          (λ g.
            reduce (hash_children_inj sha256 a b p h (wa ∙ sym wp.0) (cc (g.0)))
              (λ e. inl (cc (e.1), cc (e.0, g.1))))

    sound_promoted :
        (a : Sha256Hash) (ps : List Sha256Hash)
        → i ≡ last
        → get_elem? hs i ≡ some a
        → sibling hs i ≡ []
        → get_elem? (parents sha256 hs) (i / 2) ≡ some a
        → Wide ps
        → length ps ≡ length (level_path sha256 (suc k) hs i)
        → inclusion_loop sha256 h i last ps ≡ root
        → Genuine (suc k) hs i h ps ⊎ Collision sha256
    unfolding level_path
    sound_promoted a ps end here sib up wp n r =
        reduce
          (above h ps w wp (omega (arith, length-level_path sha256 k hs i, ap length sib))
            (sym (loop_promoted sha256 ps h i last (i / 2) (last / 2) end (omega arith)) ∙ r))
          (λ g. inl (cc (g.0), cc (g.1)))

  pub inclusion_loop_sound :
      (k : ℕ) (hs : List Sha256Hash) (i last : ℕ) (h root : Sha256Hash) (ps : List Sha256Hash)
      → suc last ≡ length hs
      → length hs ≤ 2 ^ k
      → i ≤ last
      → Wide hs
      → length h ≡ 32
      → Wide ps
      → length ps ≡ length (level_path sha256 k hs i)
      → collapse sha256 k hs ≡ root ∷ []
      → inclusion_loop sha256 h i last ps ≡ root
      → Genuine k hs i h ps ⊎ Collision sha256
  unfolding inclusion_loop collapse level_path
  inclusion_loop_sound zero [] i last h root ps e b g wh w wp n c r = absurd (omega arith)
  inclusion_loop_sound zero (y ∷ []) i last h root [] e b g wh w wp n c r = inl (ground arith, refl)
  inclusion_loop_sound zero (y ∷ []) i last h root (p ∷ ps) e b g wh w wp n c r =
      absurd (omega arith)
  inclusion_loop_sound zero (y ∷ z ∷ zs) i last h root ps e b g wh w wp n c r = absurd (omega arith)
  inclusion_loop_sound (suc k) hs i last h root ps e b g wh w wp n c r =
      let above : (h' : Sha256Hash) (ps' : List Sha256Hash)
          → length h' ≡ 32
          → Wide ps'
          → length ps' ≡ length (level_path sha256 k (parents sha256 hs) (i / 2))
          → inclusion_loop sha256 h' (i / 2) (last / 2) ps' ≡ root
          → Genuine k (parents sha256 hs) (i / 2) h' ps' ⊎ Collision sha256 =
        λ h' ps' w' wp' n' r'.
          inclusion_loop_sound k (parents sha256 hs) (i / 2) (last / 2) h' root ps'
            (omega (arith, length-parents sha256 hs))
            (omega (arith, length-parents sha256 hs, pow-suc 2 k)) (omega arith)
            (parents-Wide sha256 sha256_width hs wh) w' wp' n' c r' in
      elim (place sha256 hs i (omega arith)) [
        | left a s par lt here sib up ↦
            sound_left k hs i last h root wh w above a s ps par (omega arith) here sib up wp n r
        | right a s par lt here sib up ↦
            sound_right k hs i last h root wh w above a s ps par
              ((rw sib at (sibling-Wide hs i wh)).0) here sib up wp n r
        | promoted a par lt here sib up ↦
            sound_promoted k hs i last h root wh w above a ps (omega arith) here sib up wp n r
      ]
