-- ===== src/Merkle/Spec/Collisions.antt =====
-- Two inputs with one digest, and what equal tree hashes say if there are none.
use sigstore_rust.Common.{
  Bytes, length, bytes_eq, bytes_eq_refl, eq_of_bytes_eq, append-split, arith, ◌≡◌, ◌≢◌, ◌⊎◌, inl,
  inr, Bool-cases, reduce,
}
use sigstore_rust.Merkle.Tree.{Sha256Hash, hash_children, hash_leaf}

abbrev pub Collision : (Bytes → Sha256Hash) → Type 0
Collision sha256 = (a : Bytes) × (b : Bytes) × (a ≢ b) × (sha256 a ≡ sha256 b)

module _ (sha256 : Bytes → Sha256Hash) where
  pub sha256_inj : (a b : Bytes) → sha256 a ≡ sha256 b → (a ≡ b) ⊎ Collision sha256
  sha256_inj a b h = elim (Bool-cases (bytes_eq a b)) [
    | inl same ↦ inl (eq_of_bytes_eq a b same)
    | inr differ ↦ inr (a, b, (λ e. cc (bytes_eq_refl a)), h)
  ]

  pub hash_children_inj :
      (l r l' r' : Sha256Hash)
      → length l ≡ length l'
      → hash_children sha256 l r ≡ hash_children sha256 l' r'
      → ((l ≡ l') × (r ≡ r')) ⊎ Collision sha256
  unfolding hash_children
  hash_children_inj l r l' r' w h = elim (sha256_inj _ _ h) [
    | inl e ↦ inl (append-split l l' r r' w (cc))
    | inr c ↦ inr c
  ]

  -- A leaf hash is never a node hash, short of a collision.
  pub leaf_not_node :
      (d l r : Bytes) → hash_leaf sha256 d ≡ hash_children sha256 l r → Collision sha256
  unfolding hash_leaf hash_children
  leaf_not_node d l r h = (_, _, (λ e. ground arith), h)

  pub leaf_inj :
      (d d' : Bytes) → hash_leaf sha256 d ≡ hash_leaf sha256 d' → (d ≡ d') ⊎ Collision sha256
  unfolding hash_leaf
  leaf_inj d d' h = reduce (sha256_inj _ _ h) (λ e. inl (cc (e)))
