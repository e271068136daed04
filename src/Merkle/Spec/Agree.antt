-- ===== src/Merkle/Spec/Agree.antt =====
-- The levels compute the root and the audit paths of RFC 6962's tree.
use sigstore_rust.Common.{
  ℕ, zero, suc, ◌+◌, ◌/◌, ◌%◌, ◌^◌, ◌<◌, ◌≤◌, List, [], ◌∷◌, ◌++◌, Bytes, length, ◌≡◌, refl, arith,
  ap, ◌∙◌, sym, pow-suc,
}
use mathlib.Core.List.{append_assoc}
use sigstore_rust.Merkle.Tree.{Sha256Hash, hash_children}
use sigstore_rust.Merkle.Inclusion.Length.{level_path-single}
use sigstore_rust.Merkle.Spec.Levels.{sibling, parents, collapse, level_path, length-parents}

sibling-append_left :
    (xs ys : List Sha256Hash) (i : ℕ)
    → length xs % 2 ≡ 0
    → i < length xs
    → sibling (xs ++ ys) i ≡ sibling xs i
unfolding sibling
sibling-append_left [] ys i e h = absurd (omega arith)
sibling-append_left (x ∷ []) ys i e h = absurd (omega arith)
sibling-append_left (x ∷ y ∷ zs) ys zero e h = refl
sibling-append_left (x ∷ y ∷ zs) ys (suc zero) e h = refl
sibling-append_left (x ∷ y ∷ zs) ys (suc (suc i)) e h =
    sibling-append_left zs ys i (omega arith) (omega arith)

sibling-append_right :
    (xs ys : List Sha256Hash) (i j : ℕ)
    → length xs % 2 ≡ 0
    → j ≡ length xs + i
    → sibling (xs ++ ys) j ≡ sibling ys i
unfolding sibling
sibling-append_right [] ys i j e h = ap (sibling ys) (omega arith)
sibling-append_right (x ∷ []) ys i j e h = absurd (omega arith)
sibling-append_right (x ∷ y ∷ zs) ys i zero e h = absurd (omega arith)
sibling-append_right (x ∷ y ∷ zs) ys i (suc zero) e h = absurd (omega arith)
sibling-append_right (x ∷ y ∷ zs) ys i (suc (suc j)) e h =
    sibling-append_right zs ys i j (omega arith) (omega arith)

module _ (sha256 : Bytes → Sha256Hash) where
  parents-append :
      (xs ys : List Sha256Hash)
      → length xs % 2 ≡ 0
      → parents sha256 (xs ++ ys) ≡ parents sha256 xs ++ parents sha256 ys
  unfolding parents
  parents-append [] ys e = refl
  parents-append (x ∷ []) ys e = absurd (omega arith)
  parents-append (x ∷ y ∷ zs) ys e =
      ap (λ t. hash_children sha256 x y ∷ t) (parents-append zs ys (omega arith))

  pub collapse-append :
      (k : ℕ) (xs ys : List Sha256Hash) (x y : Sha256Hash)
      → length xs ≡ 2 ^ k
      → collapse sha256 k xs ≡ x ∷ []
      → collapse sha256 k ys ≡ y ∷ []
      → collapse sha256 (suc k) (xs ++ ys) ≡ hash_children sha256 x y ∷ []
  unfolding collapse parents
  collapse-append zero xs ys x y e cx cy = simp (cx, cy)
  collapse-append (suc k) xs ys x y e cx cy =
      ap (λ t. collapse sha256 (suc k) t) (parents-append xs ys (omega (arith, pow-suc 2 k)))
      ∙ collapse-append k (parents sha256 xs) (parents sha256 ys) x y
          (omega (arith, length-parents sha256 xs, pow-suc 2 k)) cx cy

  pub level_path-append_left :
      (k : ℕ) (xs ys : List Sha256Hash) (y : Sha256Hash) (i : ℕ)
      → length xs ≡ 2 ^ k
      → collapse sha256 k ys ≡ y ∷ []
      → i < length xs
      → level_path sha256 (suc k) (xs ++ ys) i ≡ level_path sha256 k xs i ++ (y ∷ [])
  unfolding level_path collapse sibling
  level_path-append_left zero [] ys y i e c h = absurd (omega arith)
  level_path-append_left zero (x ∷ []) ys y zero e c h = simp c
  level_path-append_left zero (x ∷ []) ys y (suc i) e c h = absurd (omega arith)
  level_path-append_left zero (x ∷ x' ∷ xs) ys y i e c h = absurd (omega arith)
  level_path-append_left (suc k) xs ys y i e c h =
      ap (λ t. t ++ level_path sha256 (suc k) (parents sha256 (xs ++ ys)) (i / 2))
        (sibling-append_left xs ys i (omega (arith, pow-suc 2 k)) h)
      ∙ ap (λ t. sibling xs i ++ level_path sha256 (suc k) t (i / 2))
          (parents-append xs ys (omega (arith, pow-suc 2 k)))
      ∙ ap (λ t. sibling xs i ++ t)
          (level_path-append_left k (parents sha256 xs) (parents sha256 ys) y (i / 2)
            (omega (arith, length-parents sha256 xs, pow-suc 2 k)) c
            (omega (arith, length-parents sha256 xs)))
      ∙ sym (append_assoc (sibling xs i) _ (y ∷ []))

  pub level_path-append_right :
      (k : ℕ) (xs ys : List Sha256Hash) (x : Sha256Hash) (i j : ℕ)
      → length xs ≡ 2 ^ k
      → collapse sha256 k xs ≡ x ∷ []
      → j ≡ length xs + i
      → i < length ys
      → length ys ≤ 2 ^ k
      → level_path sha256 (suc k) (xs ++ ys) j ≡ level_path sha256 k ys i ++ (x ∷ [])
  unfolding level_path collapse sibling
  level_path-append_right zero xs [] x i j e c h l b = absurd (omega arith)
  level_path-append_right zero xs (y ∷ []) x i zero e c h l b = absurd (omega arith)
  level_path-append_right zero xs (y ∷ []) x i (suc zero) e c h l b = simp c
  level_path-append_right zero xs (y ∷ []) x i (suc (suc j)) e c h l b = absurd (omega arith)
  level_path-append_right zero xs (y ∷ y' ∷ ys) x i j e c h l b = absurd (omega arith)
  level_path-append_right (suc k) xs ys x i j e c h l b =
      ap (λ t. t ++ level_path sha256 (suc k) (parents sha256 (xs ++ ys)) (j / 2))
        (sibling-append_right xs ys i j (omega (arith, pow-suc 2 k)) h)
      ∙ ap (λ t. sibling ys i ++ level_path sha256 (suc k) t (j / 2))
          (parents-append xs ys (omega (arith, pow-suc 2 k)))
      ∙ ap (λ t. sibling ys i ++ t)
          (level_path-append_right k (parents sha256 xs) (parents sha256 ys) x (i / 2) (j / 2)
            (omega (arith, length-parents sha256 xs, pow-suc 2 k)) c
            (omega (arith, length-parents sha256 xs, pow-suc 2 k))
            (omega (arith, length-parents sha256 ys))
            (omega (arith, length-parents sha256 ys, pow-suc 2 k)))
      ∙ sym (append_assoc (sibling ys i) _ (x ∷ []))

  -- Above the root nothing changes.
  pub collapse-more :
      (k m : ℕ) (hs : List Sha256Hash) (x : Sha256Hash)
      → k ≤ m
      → collapse sha256 k hs ≡ x ∷ []
      → collapse sha256 m hs ≡ x ∷ []
  unfolding collapse parents
  collapse-more zero zero hs x h c = c
  collapse-more zero (suc m) hs x h c = simp c (collapse-more zero m (x ∷ []) x (omega arith) refl)
  collapse-more (suc k) zero hs x h c = absurd (omega arith)
  collapse-more (suc k) (suc m) hs x h c = collapse-more k m (parents sha256 hs) x (omega arith) c

  pub level_path-more :
      (k m : ℕ) (hs : List Sha256Hash) (x : Sha256Hash) (i : ℕ)
      → k ≤ m
      → collapse sha256 k hs ≡ x ∷ []
      → i < length hs
      → level_path sha256 m hs i ≡ level_path sha256 k hs i
  unfolding collapse level_path
  level_path-more zero m hs x i h c l =
      level_path-single sha256 m hs i (omega (arith, ap length c)) (omega (arith, ap length c))
  level_path-more (suc k) zero hs x i h c l = absurd (omega arith)
  level_path-more (suc k) (suc m) hs x i h c l =
      ap (λ t. sibling hs i ++ t)
        (level_path-more k m (parents sha256 hs) x (i / 2) (omega arith) c
          (omega (arith, length-parents sha256 hs)))
