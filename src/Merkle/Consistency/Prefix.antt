-- ===== src/Merkle/Consistency/Prefix.antt =====
-- The first leaves of a tree, on the tree's levels.
use native.Mathlib.Nat.{zero-add}
use sigstore_rust.Common.{
  ℕ, zero, suc, ◌+◌, ◌/◌, ◌%◌, ◌<◌, ◌≤◌, List, [], ◌∷◌, ◌++◌, Bytes, length, take, drop, arith, ◌≡◌,
  refl, ap, ◌∙◌, sym, get_elem?, some, ◌⊎◌, inl, reduce, map,
}
use sigstore_rust.Common.Bits.{shift_right, Halves}
use sigstore_rust.Merkle.Tree.{Sha256Hash, hash_children, hash_leaf}
use sigstore_rust.Merkle.Inclusion.Levels.{Wide, parents-Wide}
use sigstore_rust.Merkle.Spec.Levels.{sibling, parents, collapse, length-parents, half-suc-suc}
use sigstore_rust.Merkle.Spec.Collisions.{Collision, hash_children_inj, leaf_inj}

pub take-all : {A : Type 0} (xs : List A) (n : ℕ) → length xs ≤ n → take n xs ≡ xs
take-all [] zero h = refl
take-all [] (suc n) h = refl
take-all (x ∷ xs) zero h = absurd (omega arith)
take-all (x ∷ xs) (suc n) h = ap (λ t. x ∷ t) (take-all xs n (omega arith))

pub length-take : {A : Type 0} (xs : List A) (n : ℕ) → n ≤ length xs → length (take n xs) ≡ n
length-take xs zero h = refl
length-take [] (suc n) h = absurd (omega arith)
length-take (x ∷ xs) (suc n) h = omega (arith, length-take xs n (omega arith))

-- The first `i + 1` elements end with the one at `i`.
pub take-suc :
    {A : Type 0} (xs : List A) (i : ℕ) {x : A}
    → get_elem? xs i ≡ some x
    → take (suc i) xs ≡ take i xs ++ (x ∷ [])
take-suc [] i g = cc
take-suc (y ∷ xs) zero g = ground arith
take-suc (y ∷ xs) (suc i) g = ap (λ t. y ∷ t) (take-suc xs i g)

pub take-map :
    {A B : Type 0} (f : A → B) (xs : List A) (n : ℕ) → take n (map f xs) ≡ map f (take n xs)
take-map f xs zero = refl
take-map f [] (suc n) = refl
take-map f (x ∷ xs) (suc n) = ap (λ t. f x ∷ t) (take-map f xs n)

pub Wide-take : (n : ℕ) (hs : List Sha256Hash) → Wide hs → Wide (take n hs)
Wide-take zero hs w = tt
Wide-take (suc n) [] w = tt
Wide-take (suc n) (x ∷ hs) w = (w.0, Wide-take n hs w.1)

pub Wide-drop : (n : ℕ) (hs : List Sha256Hash) → Wide hs → Wide (drop n hs)
Wide-drop zero hs w = w
Wide-drop (suc n) [] w = tt
Wide-drop (suc n) (x ∷ hs) w = Wide-drop n hs w.1

module _ (sha256 : Bytes → Sha256Hash) where
  parents-take :
      (hs : List Sha256Hash) (m : ℕ)
      → m % 2 ≡ 0
      → m ≤ length hs
      → parents sha256 (take m hs) ≡ take (m / 2) (parents sha256 hs)
  unfolding parents
  parents-take hs zero e h = refl
  parents-take hs (suc zero) e h = absurd (omega arith)
  parents-take [] (suc (suc m)) e h = absurd (omega arith)
  parents-take (x ∷ []) (suc (suc m)) e h = absurd (omega arith)
  parents-take (x ∷ y ∷ zs) (suc (suc m)) e h =
      rw (half-suc-suc m)
        (ap (λ t. hash_children sha256 x y ∷ t) (parents-take zs m (omega arith) (omega arith)))

  pub collapse-take :
      (s : ℕ) (hs : List Sha256Hash) (m : ℕ)
      → Halves s m
      → m ≤ length hs
      → collapse sha256 s (take m hs) ≡ take (shift_right m s) (collapse sha256 s hs)
  unfolding collapse
  collapse-take zero hs m d h = refl
  collapse-take (suc s) hs m (even, d) h =
      ap (collapse sha256 s) (parents-take hs m even h)
      ∙ collapse-take s (parents sha256 hs) (m / 2) d (omega (arith, length-parents sha256 hs))

  pub collapse-add :
      (s k : ℕ) (hs : List Sha256Hash)
      → collapse sha256 (s + k) hs ≡ collapse sha256 k (collapse sha256 s hs)
  unfolding collapse
  collapse-add zero k hs = rw zero-add
  collapse-add (suc s) k hs =
      let next : suc s + k ≡ suc (s + k) = omega arith in
      rw next (collapse-add s k (parents sha256 hs))

  pub length-collapse :
      (s : ℕ) (hs : List Sha256Hash) (last : ℕ)
      → suc last ≡ length hs
      → suc (shift_right last s) ≡ length (collapse sha256 s hs)
  unfolding collapse
  length-collapse zero hs last e = e
  length-collapse (suc s) hs last e =
      length-collapse s (parents sha256 hs) (last / 2) (omega (arith, length-parents sha256 hs))

  -- A level that is cut off after an even node, which goes up by itself.
  pub parents-cut_even :
      (hs : List Sha256Hash) (i : ℕ) (o : Sha256Hash)
      → i % 2 ≡ 0
      → i ≤ length hs
      → parents sha256 (take i hs ++ (o ∷ [])) ≡ take (i / 2) (parents sha256 hs) ++ (o ∷ [])
  unfolding parents
  parents-cut_even hs zero o e h = refl
  parents-cut_even hs (suc zero) o e h = absurd (omega arith)
  parents-cut_even [] (suc (suc i)) o e h = absurd (omega arith)
  parents-cut_even (x ∷ []) (suc (suc i)) o e h = absurd (omega arith)
  parents-cut_even (x ∷ y ∷ zs) (suc (suc i)) o e h =
      rw (half-suc-suc i) (
        ap (λ t. hash_children sha256 x y ∷ t)
          (parents-cut_even zs i o (omega arith) (omega arith)))

  -- A level that is cut off after an odd node, which has its sibling on the left.
  pub parents-cut_odd :
      (hs : List Sha256Hash) (i : ℕ) (a o : Sha256Hash)
      → i % 2 ≡ 1
      → i < length hs
      → sibling hs i ≡ a ∷ []
      → parents sha256 (take i hs ++ (o ∷ []))
        ≡ take (i / 2) (parents sha256 hs) ++ (hash_children sha256 a o ∷ [])
  unfolding parents sibling
  parents-cut_odd hs zero a o e h s = absurd (omega arith)
  parents-cut_odd [] (suc zero) a o e h s = absurd (omega arith)
  parents-cut_odd (x ∷ []) (suc zero) a o e h s = absurd (omega arith)
  parents-cut_odd (x ∷ y ∷ zs) (suc zero) a o e h s = cc s
  parents-cut_odd [] (suc (suc i)) a o e h s = absurd (omega arith)
  parents-cut_odd (x ∷ []) (suc (suc i)) a o e h s = absurd (omega arith)
  parents-cut_odd (x ∷ y ∷ zs) (suc (suc i)) a o e h s = rw (half-suc-suc i) (
      ap (λ t. hash_children sha256 x y ∷ t)
        (parents-cut_odd zs i a o (omega arith) (omega arith) s))

  pub map_leaf_inj :
      (ds es : List Bytes)
      → map (hash_leaf sha256) ds ≡ map (hash_leaf sha256) es
      → (ds ≡ es) ⊎ Collision sha256
  map_leaf_inj [] [] h = inl refl
  map_leaf_inj [] (e ∷ es) h = cc
  map_leaf_inj (d ∷ ds) [] h = cc
  map_leaf_inj (d ∷ ds) (e ∷ es) h =
      reduce (leaf_inj sha256 d e (cc (h)))
        (λ p. reduce (map_leaf_inj ds es (cc (h))) (λ q. inl (cc (p, q))))

module _ (sha256 : Bytes → Sha256Hash) (sha256_width : (b : Bytes) → length (sha256 b) ≡ 32) where
  parents_inj :
      (xs ys : List Sha256Hash)
      → length xs ≡ length ys
      → Wide xs
      → Wide ys
      → parents sha256 xs ≡ parents sha256 ys
      → (xs ≡ ys) ⊎ Collision sha256
  unfolding parents
  parents_inj [] [] n wx wy e = inl refl
  parents_inj [] (y ∷ ys) n wx wy e = absurd (omega arith)
  parents_inj (x ∷ []) [] n wx wy e = absurd (omega arith)
  parents_inj (x ∷ []) (y ∷ []) n wx wy e = inl e
  parents_inj (x ∷ []) (y ∷ y' ∷ ys) n wx wy e = absurd (omega arith)
  parents_inj (x ∷ x' ∷ xs) [] n wx wy e = absurd (omega arith)
  parents_inj (x ∷ x' ∷ xs) (y ∷ []) n wx wy e = absurd (omega arith)
  parents_inj (x ∷ x' ∷ xs) (y ∷ y' ∷ ys) n wx wy e =
      reduce (hash_children_inj sha256 x x' y y' (wx.0 ∙ sym wy.0) (cc (e))) (λ p.
        reduce (parents_inj xs ys (omega arith) wx.1.1 wy.1.1 (cc (e)))
          (λ q. inl (cc (p.0, p.1, q))))

  pub collapse-Wide : (s : ℕ) (hs : List Sha256Hash) → Wide hs → Wide (collapse sha256 s hs)
  unfolding collapse
  collapse-Wide zero hs w = w
  collapse-Wide (suc s) hs w =
      collapse-Wide s (parents sha256 hs) (parents-Wide sha256 sha256_width hs w)

  -- Levels of one length with one root are the same.
  pub collapse_inj :
      (k : ℕ) (xs ys : List Sha256Hash)
      → length xs ≡ length ys
      → Wide xs
      → Wide ys
      → collapse sha256 k xs ≡ collapse sha256 k ys
      → (xs ≡ ys) ⊎ Collision sha256
  unfolding collapse
  collapse_inj zero xs ys n wx wy e = inl e
  collapse_inj (suc k) xs ys n wx wy e =
      reduce
        (collapse_inj k (parents sha256 xs) (parents sha256 ys)
          (omega (arith, length-parents sha256 xs, length-parents sha256 ys))
          (parents-Wide sha256 sha256_width xs wx) (parents-Wide sha256 sha256_width ys wy) e)
        (parents_inj xs ys n wx wy)
