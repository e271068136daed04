-- ===== src/Common/Lists.antt =====
-- Lists measured and indexed by native numbers, under the library's names, and byte strings.
use Prim.Native.Nat.{ℕ, zero, suc, ◌+◌}
use mathlib.Core.Path.{◌≡◌, refl, ◌∙◌}
use mathlib.Core.Logic.{◌⊎◌, inl, inr}
use mathlib.Core.List.{List, [], ◌∷◌, ◌++◌}
use mathlib.Core.Option.{Option, none, some}
use mathlib.Core.Bool.{Bool, true, false, ◌&&◌}
use native.Mathlib.Nat.{zero-add, suc-add}
use native.Mathlib.Omega.{arith}
use sigstore_rust.Common.Tests.{◌==◌}

module _ {ℓ} {A : Type ℓ} where
  abbrev pub length : List A → ℕ
  length [] = 0
  length (x ∷ xs) = suc (length xs)

  abbrev pub get_elem? : List A → ℕ → Option A
  get_elem? [] i = none
  get_elem? (x ∷ xs) zero = some x
  get_elem? (x ∷ xs) (suc i) = get_elem? xs i

  abbrev pub take : ℕ → List A → List A
  take zero xs = []
  take (suc n) [] = []
  take (suc n) (x ∷ xs) = x ∷ take n xs

  abbrev pub drop : ℕ → List A → List A
  drop zero xs = xs
  drop (suc n) [] = []
  drop (suc n) (x ∷ xs) = drop n xs

  abbrev pub All {κ} : (A → Type κ) → List A → Type κ
  All P [] = Unit {κ}
  All P (x ∷ xs) = P x × All P xs

  abbrev pub is_empty : List A → Bool
  is_empty [] = true
  is_empty (x ∷ xs) = false

module _ {ℓ} {A : Type ℓ} where
  pub length-append : (xs ys : List A) → length (xs ++ ys) ≡ length xs + length ys
  length-append [] ys = omega arith
  length-append (x ∷ xs) ys = omega (arith, length-append xs ys)

  pub get_elem?-append_left :
      (xs ys : List A) (i : ℕ) {x : A} → get_elem? xs i ≡ some x → get_elem? (xs ++ ys) i ≡ some x
  get_elem?-append_left [] ys i h = cc
  get_elem?-append_left (x ∷ xs) ys zero h = h
  get_elem?-append_left (x ∷ xs) ys (suc i) h = get_elem?-append_left xs ys i h

  pub get_elem?-append_right :
      (xs ys : List A) (i : ℕ) → get_elem? (xs ++ ys) (length xs + i) ≡ get_elem? ys i
  get_elem?-append_right [] ys i = rw zero-add
  get_elem?-append_right (x ∷ xs) ys i = rw suc-add (get_elem?-append_right xs ys i)

  pub All-map {κ μ} :
      {P : A → Type κ} {Q : A → Type μ} (xs : List A) → ((x : A) → P x → Q x) → All P xs → All Q xs
  All-map [] f h = tt
  All-map (x ∷ xs) f h = (f x h.0, All-map xs f h.1)

  pub All-append {κ} : (P : A → Type κ) (xs ys : List A) → All P xs → All P ys → All P (xs ++ ys)
  All-append P [] ys h k = k
  All-append P (x ∷ xs) ys h k = (h.0, All-append P xs ys h.1 k)

-- A `Vec<u8>`, `&[u8]` or `[u8; N]`: the list of its bytes.
abbrev pub Bytes : Type 0
Bytes = List ℕ

abbrev pub bytes_eq : Bytes → Bytes → Bool
bytes_eq [] [] = true
bytes_eq [] (y ∷ ys) = false
bytes_eq (x ∷ xs) [] = false
bytes_eq (x ∷ xs) (y ∷ ys) = (x == y) && bytes_eq xs ys

pub bytes_eq_refl : (xs : Bytes) → bytes_eq xs xs ≡ true
bytes_eq_refl [] = refl
bytes_eq_refl (x ∷ xs) = ground (arith, bytes_eq_refl xs)

pub eq_of_bytes_eq : (xs ys : Bytes) → bytes_eq xs ys ≡ true → xs ≡ ys
eq_of_bytes_eq [] [] h = refl
eq_of_bytes_eq [] (y ∷ ys) h = cc
eq_of_bytes_eq (x ∷ xs) [] h = cc
eq_of_bytes_eq (x ∷ xs) (y ∷ ys) h = ground (arith, eq_of_bytes_eq xs ys)

-- Two concatenations of parts of the same length agree only if the parts do.
pub append-split :
    {A : Type 0} (us vs xs ys : List A)
    → length us ≡ length vs
    → (us ++ xs) ≡ (vs ++ ys)
    → (us ≡ vs) × (xs ≡ ys)
append-split [] [] xs ys e h = (refl, h)
append-split [] (v ∷ vs) xs ys e h = absurd (omega arith)
append-split (u ∷ us) [] xs ys e h = absurd (omega arith)
append-split (u ∷ us) (v ∷ vs) xs ys e h = ground (arith, append-split us vs xs ys (omega arith))

module _ {ℓ} {A : Type ℓ} where
  -- The list has the element at some place.
  abbrev pub In : List A → A → Type ℓ
  In xs x = (i : ℕ) × (get_elem? xs i ≡ some x)

  pub In-tail : (y : A) (xs : List A) {x : A} → In xs x → In (y ∷ xs) x
  In-tail y xs (i, h) = (suc i, h)

  pub In-append_left : (xs ys : List A) {x : A} → In xs x → In (xs ++ ys) x
  In-append_left xs ys (i, h) = (i, get_elem?-append_left xs ys i h)

  pub In-append_right : (xs ys : List A) {x : A} → In ys x → In (xs ++ ys) x
  In-append_right xs ys (i, h) = (length xs + i, get_elem?-append_right xs ys i ∙ h)

  pub In-append : (xs ys : List A) {x : A} → In (xs ++ ys) x → In xs x ⊎ In ys x
  In-append [] ys m = inr m
  In-append (y ∷ xs) ys (zero, h) = inl (0, h)
  In-append (y ∷ xs) ys (suc i, h) = elim (In-append xs ys (i, h)) [
    | inl m ↦ inl (In-tail y xs m)
    | inr m ↦ inr m
  ]

  pub In-cons : (y : A) (xs : List A) {x : A} → In (y ∷ xs) x → (y ≡ x) ⊎ In xs x
  In-cons y xs (zero, h) = inl cc
  In-cons y xs (suc i, h) = inr (i, h)
