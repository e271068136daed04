-- ===== src/Merkle/Inclusion/Levels.antt =====
-- The loop of `verify_inclusion_proof` on the levels of a tree: it rebuilds the root from an audit
-- path, and a run that ends at the root had the leaf and the path, or shows a collision.
use native.Mathlib.Nat.{pow-suc}
use sigstore_rust.Common.{
  ℕ, zero, suc, ◌/◌, ◌%◌, ◌^◌, ◌<◌, ◌≤◌, List, [], ◌∷◌, ◌++◌, Bytes, length, arith, ◌≡◌, refl, ◌∙◌,
  ap, get_elem?, some, All,
}
use sigstore_rust.Merkle.Tree.{Sha256Hash, hash_children}
use sigstore_rust.Merkle.Inclusion.{inclusion_step, inclusion_loop}
use sigstore_rust.Merkle.Spec.Levels.{
  sibling, parents, collapse, level_path, left, right, promoted, place, length-parents,
}

-- Every node has the width of a digest.
abbrev pub Wide : List Sha256Hash → Type 0
Wide hs = All (λ h. length h ≡ 32) hs

module _ (sha256 : Bytes → Sha256Hash) where
  -- At the last node every sibling is on the left, so the number itself does not matter.
  inclusion_loop_last :
      (ps : List Sha256Hash) (h : Sha256Hash) (x y : ℕ)
      → inclusion_loop sha256 h x x ps ≡ inclusion_loop sha256 h y y ps
  unfolding inclusion_loop inclusion_step
  inclusion_loop_last [] h x y = refl
  inclusion_loop_last (p ∷ ps) h x y =
      ground (arith, inclusion_loop_last ps (hash_children sha256 p h) (x / 2) (y / 2))

  pub loop_promoted :
      (ps : List Sha256Hash) (h : Sha256Hash) (i last i' last' : ℕ)
      → i ≡ last
      → i' ≡ last'
      → inclusion_loop sha256 h i last ps ≡ inclusion_loop sha256 h i' last' ps
  loop_promoted ps h i last i' last' e e' = cc (inclusion_loop_last ps h i i')

  pub step_left :
      (h p : Sha256Hash) (i last : ℕ)
      → i % 2 ≡ 0
      → i < last
      → inclusion_step sha256 h i last p ≡ hash_children sha256 h p
  unfolding inclusion_step
  step_left h p i last e lt = ground arith

  pub step_right :
      (h p : Sha256Hash) (i last : ℕ)
      → i % 2 ≡ 1
      → inclusion_step sha256 h i last p ≡ hash_children sha256 p h
  unfolding inclusion_step
  step_right h p i last e = ground arith

  pub inclusion_loop-level_path :
      (k : ℕ) (hs : List Sha256Hash) (i last : ℕ) (x root : Sha256Hash)
      → suc last ≡ length hs
      → length hs ≤ 2 ^ k
      → get_elem? hs i ≡ some x
      → i ≤ last
      → collapse sha256 k hs ≡ root ∷ []
      → inclusion_loop sha256 x i last (level_path sha256 k hs i) ≡ root
  unfolding level_path collapse inclusion_loop
  inclusion_loop-level_path zero [] i last x root e b g h c = absurd (omega arith)
  inclusion_loop-level_path zero (y ∷ []) i last x root e b g h c = ground arith
  inclusion_loop-level_path zero (y ∷ z ∷ zs) i last x root e b g h c = absurd (omega arith)
  inclusion_loop-level_path (suc k) hs i last x root e b g h c =
      let path = level_path sha256 k (parents sha256 hs) (i / 2) in
      let ih : (x' : Sha256Hash)
          → get_elem? (parents sha256 hs) (i / 2) ≡ some x'
          → inclusion_loop sha256 x' (i / 2) (last / 2)
              (level_path sha256 k (parents sha256 hs) (i / 2))
            ≡ root =
        λ x' g'.
          inclusion_loop-level_path k (parents sha256 hs) (i / 2) (last / 2) x' root
            (omega (arith, length-parents sha256 hs))
            (omega (arith, length-parents sha256 hs, pow-suc 2 k)) g' (omega arith) c in
      elim (place sha256 hs i (omega arith)) [
        | left a s par lt here sib up ↦
            ap (λ z. inclusion_loop sha256 x i last (z ++ path)) sib
            ∙ ap (λ z. inclusion_loop sha256 z (i / 2) (last / 2) path)
                (step_left x s i last par (omega arith))
            ∙ ih (hash_children sha256 x s) (cc)
        | right a s par lt here sib up ↦
            ap (λ z. inclusion_loop sha256 x i last (z ++ path)) sib
            ∙ ap (λ z. inclusion_loop sha256 z (i / 2) (last / 2) path) (step_right x a i last par)
            ∙ ih (hash_children sha256 a x) (cc)
        | promoted a par lt here sib up ↦
            ap (λ z. inclusion_loop sha256 x i last (z ++ path)) sib
            ∙ loop_promoted path x i last (i / 2) (last / 2) (omega arith) (omega arith)
            ∙ ih x (cc)
      ]

module _ (sha256 : Bytes → Sha256Hash) (sha256_width : (b : Bytes) → length (sha256 b) ≡ 32) where
  pub parents-Wide : (hs : List Sha256Hash) → Wide hs → Wide (parents sha256 hs)
  unfolding parents hash_children
  parents-Wide [] w = w
  parents-Wide (x ∷ []) w = w
  parents-Wide (x ∷ y ∷ zs) w = (sha256_width _, parents-Wide zs w.1.1)

pub get_elem?-Wide :
    (hs : List Sha256Hash) (i : ℕ) {x : Sha256Hash}
    → Wide hs
    → get_elem? hs i ≡ some x
    → length x ≡ 32
get_elem?-Wide [] i w g = cc
get_elem?-Wide (y ∷ hs) zero w g = ground arith
get_elem?-Wide (y ∷ hs) (suc i) w g = get_elem?-Wide hs i w.1 g

pub sibling-Wide : (hs : List Sha256Hash) (i : ℕ) → Wide hs → Wide (sibling hs i)
unfolding sibling
sibling-Wide [] i w = tt
sibling-Wide (x ∷ []) i w = tt
sibling-Wide (x ∷ y ∷ zs) zero w = (w.1.0, tt)
sibling-Wide (x ∷ y ∷ zs) (suc zero) w = (w.0, tt)
sibling-Wide (x ∷ y ∷ zs) (suc (suc i)) w = sibling-Wide zs i w.1.1
