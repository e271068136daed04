-- ===== src/Merkle/Inclusion/Bound.antt =====
-- What an accepted inclusion proof says when the bundle chooses the index and the size itself.
use sigstore_rust.Common.{
  ℕ, ◌+◌, ◌/◌, List, [], ◌∷◌, Bytes, length, ◌≡◌, ap, ◌∙◌, sym, get_elem?, get_elem?-append_left,
  get_elem?-append_right, some, ◌⊎◌, inl, inr, reduce, Bool-cases, ◌||◌, ◌==◌, ◌%◌,
}
use sigstore_rust.Common.Fallible.{ok}
use sigstore_rust.Merkle.Tree.{Sha256Hash, hash_leaf, hash_children}
use sigstore_rust.Merkle.Inclusion.{inclusion_loop, inclusion_step, verify_inclusion_proof}
use sigstore_rust.Merkle.Inclusion.Correct.{accepted}
use sigstore_rust.Merkle.Inclusion.Levels.{Wide}
use sigstore_rust.Merkle.Spec.Collisions.{Collision, hash_children_inj, leaf_inj, leaf_not_node}
use sigstore_rust.Merkle.Spec.Tree.{MerkleTree, leaf, node, leaves, root}

-- A leaf of the tree holds `d`.
abbrev pub Holds : MerkleTree → Bytes → Type 0
Holds t d = (j : ℕ) × (get_elem? (leaves t) j ≡ some d)

Holds-left : (l r : MerkleTree) (d : Bytes) → Holds l d → Holds (node l r) d
Holds-left l r d (j, h) = (j, get_elem?-append_left (leaves l) (leaves r) j h)

Holds-right : (l r : MerkleTree) (d : Bytes) → Holds r d → Holds (node l r) d
Holds-right l r d (j, h) =
    (length (leaves l) + j, get_elem?-append_right (leaves l) (leaves r) j ∙ h)

module _ (sha256 : Bytes → Sha256Hash) (sha256_width : (b : Bytes) → length (sha256 b) ≡ 32) where
  -- The hashes that can be reached from `h` by hashing with further entries of 32 bytes.
  data Climbs (h : Sha256Hash) : Sha256Hash → Type 0 where
    start : Climbs h h
    with_right :
        {x : Sha256Hash} (p : Sha256Hash)
        → Climbs h x
        → length x ≡ 32
        → Climbs h (hash_children sha256 x p)
    with_left :
        {x : Sha256Hash} (p : Sha256Hash)
        → Climbs h x
        → length p ≡ 32
        → Climbs h (hash_children sha256 p x)

  node_width : (l r : Sha256Hash) → length (hash_children sha256 l r) ≡ 32
  unfolding hash_children
  node_width l r = sha256_width _

  inclusion_loop-Climbs :
      (h x : Sha256Hash) (i last : ℕ) (ps : List Sha256Hash)
      → length x ≡ 32
      → Wide ps
      → Climbs h x
      → Climbs h (inclusion_loop sha256 x i last ps)
  unfolding inclusion_loop inclusion_step
  inclusion_loop-Climbs h x i last [] w wp c = c
  inclusion_loop-Climbs h x i last (p ∷ ps) w wp c = elim (Bool-cases (i % 2 == 1 || i == last)) [
    | inl e ↦ rw e (
        inclusion_loop-Climbs h (hash_children sha256 p x) (i / 2) (last / 2) ps (node_width p x)
          wp.1 (with_left p c wp.0))
    | inr e ↦ rw e (
        inclusion_loop-Climbs h (hash_children sha256 x p) (i / 2) (last / 2) ps (node_width x p)
          wp.1 (with_right p c w))
  ]

  root_width : (t : MerkleTree) → length (root sha256 t) ≡ 32
  unfolding hash_leaf hash_children
  root_width (leaf d) = sha256_width _
  root_width (node l r) = sha256_width _

  Climbs-root :
      (t : MerkleTree) (d : Bytes) (x : Sha256Hash)
      → Climbs (hash_leaf sha256 d) x
      → x ≡ root sha256 t
      → Holds t d ⊎ Collision sha256
  Climbs-root (leaf d') d x start e =
      reduce (leaf_inj sha256 d d' e) (λ q. inl (0, ap some (sym q)))
  Climbs-root (leaf d') d x (with_right p c w) e = inr (leaf_not_node sha256 d' _ p (sym e))
  Climbs-root (leaf d') d x (with_left p c w) e = inr (leaf_not_node sha256 d' p _ (sym e))
  Climbs-root (node l r) d x start e = inr (leaf_not_node sha256 d _ _ e)
  Climbs-root (node l r) d x (with_right {x = y} p c w) e =
      reduce (hash_children_inj sha256 y p _ _ (w ∙ sym (root_width l)) e)
        (λ q. reduce (Climbs-root l d y c q.0) (λ h. inl (Holds-left l r d h)))
  Climbs-root (node l r) d x (with_left {x = y} p c w) e =
      reduce (hash_children_inj sha256 p y _ _ (w ∙ sym (root_width l)) e)
        (λ q. reduce (Climbs-root r d y c q.1) (λ h. inl (Holds-right l r d h)))

  -- Whatever index and size a bundle claims: if the proof for the hash of `d` is accepted against the
  -- root of a tree, of any shape, then a leaf of the tree holds `d`, or two inputs with one SHA-256
  -- digest are at hand. The digests and the proof's entries are 32 bytes wide.
  pub verify_inclusion_proof_binds :
      (t : MerkleTree) (d : Bytes) (i n : ℕ) (ps : List Sha256Hash)
      → Wide ps
      → verify_inclusion_proof sha256 (hash_leaf sha256 d) i n ps (root sha256 t) ≡ ok tt
      → Holds t d ⊎ Collision sha256
  verify_inclusion_proof_binds t d i n ps wp e =
      Climbs-root t d _ (inclusion_loop-Climbs _ _ i _ ps (root_width (leaf d)) wp start)
        (accepted sha256 _ i n ps _ e).2
