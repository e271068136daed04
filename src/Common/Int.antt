-- ===== src/Common/Int.antt =====
-- `i64`, as an integer: `negsuc n` is -(n + 1).
use Prim.Native.Nat.{ℕ, zero, suc, ◌+◌, ◌-◌, ◌%◌, ◌^◌, ◌≤◌}
use mathlib.Core.Path.{◌≡◌}
use mathlib.Core.Bool.{Bool, true, false, not}
use mathlib.Core.Logic.{◌↔◌}
use native.Mathlib.Omega.{arith}
use sigstore_rust.Common.Tests.{ltb, leb, if◌then◌else◌}

pub data ℤ : Type 0 where
  pos : ℕ → ℤ
  negsuc : ℕ → ℤ

abbrev pub pos_part : ℤ → ℕ
pos_part (pos n) = n
pos_part (negsuc n) = 0

abbrev pub neg_part : ℤ → ℕ
neg_part (pos n) = 0
neg_part (negsuc n) = suc n

-- -n
abbrev pub minus : ℕ → ℤ
minus zero = pos 0
minus (suc n) = negsuc n

infixl 65 ◌+ℤ◌
unfoldable pub ◌+ℤ◌ : ℤ → ℤ → ℤ
a +ℤ b =
    let up = pos_part a + pos_part b in
    let down = neg_part a + neg_part b in
    if leb down up then pos (up - down) else negsuc (down - up - 1)

infix 50 ◌≤ℤ◌
abbrev pub ◌≤ℤ◌ : ℤ → ℤ → Type 0
a ≤ℤ b = pos_part a + neg_part b ≤ pos_part b + neg_part a

abbrev pub ltb_ℤ : ℤ → ℤ → Bool
ltb_ℤ a b = ltb (pos_part a + neg_part b) (pos_part b + neg_part a)

pub ltb_ℤ-false : (a b : ℤ) → ltb_ℤ a b ≡ false → b ≤ℤ a
ltb_ℤ-false a b h = ground arith

pub ltb_ℤ-true : (a b : ℤ) → ltb_ℤ a b ≡ true → a ≤ℤ b
ltb_ℤ-true a b h = ground arith

-- `x as u64`
unfoldable pub as_u64 : ℤ → ℕ
as_u64 (pos n) = n
as_u64 (negsuc n) = 2 ^ 64 - suc n

-- `n as i64` of a number below 2^64, and the wrap-around of a sum.
unfoldable pub as_i64 : ℕ → ℤ
as_i64 n = if ltb n (2 ^ 63) then pos n else negsuc (2 ^ 64 - suc n)

unfoldable pub wrap_i64 : ℤ → ℤ
unfolding as_i64
wrap_i64 (pos n) = as_i64 (n % 2 ^ 64)
wrap_i64 (negsuc n) = as_i64 (2 ^ 64 - suc (n % 2 ^ 64))

-- `b <= a`, tested as `!(a < b)`.
abbrev pub leb_ℤ : ℤ → ℤ → Bool
leb_ℤ b a = not (ltb_ℤ a b)

pub leb_ℤ_iff : (b a : ℤ) → (leb_ℤ b a ≡ true) ↔ (b ≤ℤ a)
leb_ℤ_iff b a = ground arith

pub ≤ℤ_trans : (a b c : ℤ) → a ≤ℤ b → b ≤ℤ c → a ≤ℤ c
≤ℤ_trans a b c h k = omega arith
