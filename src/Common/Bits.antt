-- ===== src/Common/Bits.antt =====
-- The operations of Rust's core library on the bits of a `u64`, and what they say of halving.
use Prim.Native.Nat.{
  ℕ, zero, suc, ◌+◌, ◌-◌, ◌*◌, ◌/◌, ◌%◌, ◌^◌, ◌≤◌, ◌<◌, bit_xor, differ, digits, bit_xor-bitwise,
}
use mathlib.Core.Path.{◌≡◌, refl, ◌∙◌, ap, sym}
use mathlib.Core.Logic.{◌≢◌}
use native.Mathlib.Omega.{arith}
use native.Mathlib.Nat.{pow-suc}
use native.Mathlib.Numerals.{unary_clauses}
use native.Mathlib.Decide.{ℕ_discrete}
use sigstore_rust.Common.Tests.{◌==◌, ltb, if◌then◌else◌}

-- `x >> k`, by halving `k` times.
abbrev pub shift_right : ℕ → ℕ → ℕ
shift_right x zero = x
shift_right x (suc k) = shift_right (x / 2) k

-- For a number of `w` bits.
unfoldable pub leading_zeros : (w x : ℕ) → ℕ
leading_zeros zero x = 0
leading_zeros (suc w) x = if x == 0 then suc w else leading_zeros w (x / 2)

unfoldable pub trailing_zeros : (w x : ℕ) → ℕ
trailing_zeros zero x = 0
trailing_zeros (suc w) x = if x % 2 == 0 then suc (trailing_zeros w (x / 2)) else 0

unfoldable pub count_ones : (w x : ℕ) → ℕ
count_ones zero x = 0
count_ones (suc w) x = x % 2 + count_ones w (x / 2)

-- `checked_shr`, at the width of a `u64`: none from 64 on, where `unwrap_or(0)` gives 0.
unfoldable pub checked_shr_or_zero : ℕ → ℕ → ℕ
checked_shr_or_zero x k = if ltb k 64 then shift_right x k else 0

-- The exclusive or, one digit at a time.
xor_digits :
    (n m a b : ℕ) → a ≤ n → a ≤ m → digits (λ y. y) differ n a b ≡ digits (λ y. y) differ m a b
xor_digits n m zero b p q = xor_none n b ∙ sym (xor_none m b)
  where
    xor_none : (n b : ℕ) → digits (λ y. y) differ n 0 b ≡ b
    xor_none zero b = refl
    xor_none (suc n) b = refl
xor_digits zero m (suc a) b p q = absurd (omega arith)
xor_digits (suc n) zero (suc a) b p q = absurd (omega arith)
xor_digits (suc n) (suc m) (suc a) b p q =
    omega (arith, xor_digits n m (suc a / 2) (b / 2) (omega arith) (omega arith))

differ-zero : (b : ℕ) → differ 0 b ≡ b
differ-zero b = refl

differ-lt : (a b : ℕ) → a < 2 → b < 2 → differ a b < 2
differ-lt zero b p q = q
differ-lt (suc zero) zero p q = p
differ-lt (suc zero) (suc b) p q = omega arith
differ-lt (suc (suc a)) b p q = absurd (omega arith)

differ-eq : (a b : ℕ) → differ a b ≡ 0 → a ≡ b
differ-eq zero b e = sym e
differ-eq (suc a) zero e = e
differ-eq (suc a) (suc b) e = ap suc (differ-eq a b e)

differ-same : (a : ℕ) → differ a a ≡ 0
differ-same zero = refl
differ-same (suc a) = differ-same a

bit_xor-digit : (a b : ℕ) → bit_xor a b ≡ bit_xor (a / 2) (b / 2) * 2 + differ (a % 2) (b % 2)
bit_xor-digit zero b = omega (arith, bit_xor-bitwise 0 b, bit_xor-bitwise 0 (b / 2))
bit_xor-digit (suc a) b = omega (
  arith,
  bit_xor-bitwise (suc a) b,
  bit_xor-bitwise (suc a / 2) (b / 2),
  xor_digits a (suc a / 2) (suc a / 2) (b / 2) (omega arith) (omega arith),
)

pub bit_xor-half : (a b : ℕ) → bit_xor a b / 2 ≡ bit_xor (a / 2) (b / 2)
bit_xor-half a b =
    omega (arith, bit_xor-digit a b, differ-lt (a % 2) (b % 2) (omega arith) (omega arith))

bit_xor-same_below : (n a : ℕ) → a ≤ n → bit_xor a a ≡ 0
bit_xor-same_below n zero h = bit_xor-bitwise 0 0
bit_xor-same_below zero (suc a) h = absurd (omega arith)
bit_xor-same_below (suc n) (suc a) h = omega (
  arith,
  bit_xor-digit (suc a) (suc a),
  differ-same (suc a % 2),
  bit_xor-same_below n (suc a / 2) (omega arith),
)

pub bit_xor-same : (a : ℕ) → bit_xor a a ≡ 0
bit_xor-same a = bit_xor-same_below a a (omega arith)

bit_xor-eq_below : (n a b : ℕ) → a ≤ n → bit_xor a b ≡ 0 → a ≡ b
bit_xor-eq_below n zero b h e = sym (sym (bit_xor-bitwise 0 b) ∙ e)
bit_xor-eq_below zero (suc a) b h e = absurd (omega arith)
bit_xor-eq_below (suc n) (suc a) b h e =
    let half : suc a / 2 ≡ b / 2 =
      bit_xor-eq_below n (suc a / 2) (b / 2) (omega arith)
        (omega (arith, bit_xor-half (suc a) b)) in
    let digit : suc a % 2 ≡ b % 2 =
      differ-eq (suc a % 2) (b % 2) (omega (arith, bit_xor-digit (suc a) b)) in
    omega arith

pub bit_xor-eq : (a b : ℕ) → bit_xor a b ≡ 0 → a ≡ b
bit_xor-eq a b = bit_xor-eq_below a a b (omega arith)

-- `a` and `b` differ after each of fewer than `j` halvings, and agree after `j`.
abbrev pub Meet : (j a b : ℕ) → Type 0
Meet zero a b = a ≡ b
Meet (suc j) a b = (a < b) × Meet j (a / 2) (b / 2)

leading_zeros-le : (w x : ℕ) → leading_zeros w x ≤ w
unfolding leading_zeros
leading_zeros-le zero x = omega arith
leading_zeros-le (suc w) x = ground (arith, leading_zeros-le w (x / 2))

leading_zeros-zero : (w x : ℕ) → x ≡ 0 → leading_zeros (suc w) x ≡ suc w
unfolding leading_zeros
leading_zeros-zero w x e = ground arith

leading_zeros-half : (w x : ℕ) → x ≢ 0 → leading_zeros (suc w) x ≡ leading_zeros w (x / 2)
unfolding leading_zeros
leading_zeros-half w x n = ground arith

-- Where two numbers meet is where their highest differing bit is.
pub leading_zeros-Meet :
    (w a b : ℕ) → a ≤ b → b < 2 ^ w → Meet (w - leading_zeros w (bit_xor a b)) a b
unfolding leading_zeros
leading_zeros-Meet zero a b h lt = omega arith
leading_zeros-Meet (suc w) a b h lt = elim (ℕ_discrete a b) [
  | yes same ↦
      let none_left : suc w - leading_zeros (suc w) (bit_xor a b) ≡ 0 =
        ground (arith, leading_zeros-zero w (bit_xor a b), bit_xor-same b) in
      rw none_left same
  | no differ ↦
      let further : suc w - leading_zeros (suc w) (bit_xor a b)
          ≡ suc (w - leading_zeros w (bit_xor (a / 2) (b / 2))) =
        ground (
          arith,
          leading_zeros-half w (bit_xor a b),
          bit_xor-half a b,
          bit_xor-eq a b,
          leading_zeros-le w (bit_xor (a / 2) (b / 2)),
        ) in
      rw further (
        omega arith,
        leading_zeros-Meet w (a / 2) (b / 2) (omega arith) (omega (arith, pow-suc 2 w)),
      )
]

-- Halving on the way, for numbers that meet.
pub shift_right-suc : (x k : ℕ) → shift_right x (suc k) ≡ shift_right x k / 2
shift_right-suc x zero = refl
shift_right-suc x (suc k) = shift_right-suc (x / 2) k

pub shift_right-le : (a b k : ℕ) → a ≤ b → shift_right a k ≤ shift_right b k
shift_right-le a b zero h = h
shift_right-le a b (suc k) h = shift_right-le (a / 2) (b / 2) k (omega arith)

pub shift_right_le : (x k : ℕ) → shift_right x k ≤ x
shift_right_le x zero = omega arith
shift_right_le x (suc k) = omega (arith, shift_right_le (x / 2) k)

shift_right-small : (w x k : ℕ) → x < 2 ^ w → w ≤ k → shift_right x k ≡ 0
shift_right-small w x zero lt h = omega (arith, ap (λ v. 2 ^ v) (le_zero w h))
  where
    le_zero : (w : ℕ) → w ≤ 0 → w ≡ 0
    le_zero w h = omega arith
shift_right-small zero x (suc k) lt h = shift_right-small 0 (x / 2) k (omega arith) (omega arith)
shift_right-small (suc w) x (suc k) lt h =
    shift_right-small w (x / 2) k (omega (arith, pow-suc 2 w)) (omega arith)

pub checked_shr_or_zero-shift_right :
    (x k : ℕ) → x < 2 ^ 64 → checked_shr_or_zero x k ≡ shift_right x k
unfolding checked_shr_or_zero
checked_shr_or_zero-shift_right x k lt = ground (arith, shift_right-small 64 x k lt)

same-shift_right : (a b k : ℕ) → a ≡ b → shift_right a k ≡ shift_right b k
same-shift_right a b k e = ap (λ x. shift_right x k) e

pub Meet-shift_right : (j s a b : ℕ) → Meet j a b → Meet (j - s) (shift_right a s) (shift_right b s)
Meet-shift_right j zero a b m = simp unary_clauses m
Meet-shift_right zero (suc s) a b m =
    let none_left : 0 - suc s ≡ 0 = omega arith in rw none_left (same-shift_right a b (suc s) m)
Meet-shift_right (suc j) (suc s) a b m =
    simp unary_clauses (Meet-shift_right j s (a / 2) (b / 2) m.1)

-- Numbers that still differ after `s` halvings meet later.
pub Meet-le : (j s a b : ℕ) → Meet j a b → shift_right a s < shift_right b s → s ≤ j
Meet-le j zero a b m lt = omega arith
Meet-le zero (suc s) a b m lt = absurd (omega (arith, same-shift_right a b (suc s) m))
Meet-le (suc j) (suc s) a b m lt = omega (arith, Meet-le j s (a / 2) (b / 2) m.1 lt)

pub shift_right-shift_right :
    (x s j : ℕ) → s ≤ j → shift_right (shift_right x s) (j - s) ≡ shift_right x j
shift_right-shift_right x zero j h = simp unary_clauses
shift_right-shift_right x (suc s) zero h = absurd (omega arith)
shift_right-shift_right x (suc s) (suc j) h =
    simp unary_clauses (shift_right-shift_right (x / 2) s j (omega arith))

-- `2 ^ s` divides `m`.
abbrev pub Halves : (s m : ℕ) → Type 0
Halves zero m = Unit
Halves (suc s) m = (m % 2 ≡ 0) × Halves s (m / 2)

pub trailing_zeros-Halves : (w m : ℕ) → Halves (trailing_zeros w m) m
unfolding trailing_zeros
trailing_zeros-Halves zero m = tt
trailing_zeros-Halves (suc w) m = elim (ℕ_discrete (m % 2) 0) [
  | yes even ↦
      let more : trailing_zeros (suc w) m ≡ suc (trailing_zeros w (m / 2)) = ground arith in
      rw more (even, trailing_zeros-Halves w (m / 2))
  | no odd ↦ let none_left : trailing_zeros (suc w) m ≡ 0 = ground arith in rw none_left tt
]

-- The number before a multiple of `2 ^ s`.
pub Halves-pred : (s m : ℕ) → Halves s m → 0 < m → suc (shift_right (m - 1) s) ≡ shift_right m s
Halves-pred zero m h p = omega arith
Halves-pred (suc s) m (even, h) p =
    ap (λ x. suc (shift_right x s)) (pred_half m even p) ∙ Halves-pred s (m / 2) h (omega arith)
  where
    pred_half : (m : ℕ) → m % 2 ≡ 0 → 0 < m → (m - 1) / 2 ≡ m / 2 - 1
    pred_half m even p = omega arith
