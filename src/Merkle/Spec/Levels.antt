-- ===== src/Merkle/Spec/Levels.antt =====
-- The tree by levels: the nodes of a level are paired from the left, and an odd one out moves up.
use sigstore_rust.Common.{
  ℕ, zero, suc, ◌+◌, ◌/◌, ◌%◌, ◌<◌, List, [], ◌∷◌, ◌++◌, Bytes, length, get_elem?, arith, ◌≡◌, refl,
  some,
}
use sigstore_rust.Merkle.Tree.{Sha256Hash, hash_children}

pub half-suc-suc : (i : ℕ) → suc (suc i) / 2 ≡ suc (i / 2)
half-suc-suc i = omega arith

-- The path's entry at one level: none for an odd node out.
unfoldable pub sibling : List Sha256Hash → ℕ → List Sha256Hash
sibling [] i = []
sibling (x ∷ []) i = []
sibling (x ∷ y ∷ zs) zero = y ∷ []
sibling (x ∷ y ∷ zs) (suc zero) = x ∷ []
sibling (x ∷ y ∷ zs) (suc (suc i)) = sibling zs i

module _ (sha256 : Bytes → Sha256Hash) where
  unfoldable pub parents : List Sha256Hash → List Sha256Hash
  parents [] = []
  parents (x ∷ []) = x ∷ []
  parents (x ∷ y ∷ zs) = hash_children sha256 x y ∷ parents zs

  -- `k` levels up. For 1 to `2 ^ k` leaves one node is left, the root.
  unfoldable pub collapse : ℕ → List Sha256Hash → List Sha256Hash
  unfolding parents
  collapse zero hs = hs
  collapse (suc k) hs = collapse k (parents hs)

  -- The siblings on the way up from the node `i`, lowest first.
  unfoldable pub level_path : ℕ → List Sha256Hash → ℕ → List Sha256Hash
  unfolding parents sibling
  level_path zero hs i = []
  level_path (suc k) hs i = sibling hs i ++ level_path k (parents hs) (i / 2)

  -- Where a node stands in its level, with what that says of the level above.
  pub data Place (hs : List Sha256Hash) (i : ℕ) : Type 0 where
    left :
        (a b : Sha256Hash)
        → i % 2 ≡ 0
        → suc i < length hs
        → get_elem? hs i ≡ some a
        → sibling hs i ≡ b ∷ []
        → get_elem? (parents hs) (i / 2) ≡ some (hash_children sha256 a b)
        → Place hs i
    right :
        (a b : Sha256Hash)
        → i % 2 ≡ 1
        → i < length hs
        → get_elem? hs i ≡ some b
        → sibling hs i ≡ a ∷ []
        → get_elem? (parents hs) (i / 2) ≡ some (hash_children sha256 a b)
        → Place hs i
    promoted :
        (a : Sha256Hash)
        → i % 2 ≡ 0
        → suc i ≡ length hs
        → get_elem? hs i ≡ some a
        → sibling hs i ≡ []
        → get_elem? (parents hs) (i / 2) ≡ some a
        → Place hs i

  pub place : (hs : List Sha256Hash) (i : ℕ) → i < length hs → Place hs i
  unfolding sibling parents
  place [] i h = absurd (omega arith)
  place (x ∷ []) zero h = promoted x refl refl refl refl refl
  place (x ∷ []) (suc i) h = absurd (omega arith)
  place (x ∷ y ∷ zs) zero h = left x y refl (omega arith) refl refl refl
  place (x ∷ y ∷ zs) (suc zero) h = right x y refl (omega arith) refl refl refl
  place (x ∷ y ∷ zs) (suc (suc i)) h = elim (place zs i (omega arith)) [
    | left a b par lt here sib up ↦
        left a b (omega arith) (omega arith) here sib (rw half-suc-suc up)
    | right a b par lt here sib up ↦
        right a b (omega arith) (omega arith) here sib (rw half-suc-suc up)
    | promoted a par lt here sib up ↦
        promoted a (omega arith) (omega arith) here sib (rw half-suc-suc up)
  ]

  pub length-parents : (hs : List Sha256Hash) → length (parents hs) ≡ length hs / 2 + length hs % 2
  unfolding parents
  length-parents [] = refl
  length-parents (x ∷ []) = refl
  length-parents (x ∷ y ∷ zs) = omega (arith, length-parents zs)
