-- ===== src/Tuf/Json/Decimal.antt =====
-- The decimal form of a number, and its digits.
use mathlib.Core.Logic.{dite}
use mathlib.Core.WellFounded.{Acc}
use sigstore_rust.Common.{
  ℕ, ◌+◌, ◌*◌, ◌-◌, ◌/◌, ◌%◌, ◌<◌, ◌≤◌, [], ◌∷◌, ◌++◌, Str, All, All-append, ◌≡◌, refl, ap, sym,
  ◌∙◌, arith, dec_lt,
}
use sigstore_rust.Common.Order.{lt_wf}
use sigstore_rust.Tuf.Json.{quotient_lt, decimal_loop, decimal}

abbrev pub Digit : ℕ → Type 0
Digit c = (48 ≤ c) × (c ≤ 57)

-- The number that a row of digits stands for, after `acc`.
abbrev pub value : ℕ → Str → ℕ
value acc [] = acc
value acc (c ∷ s) = value (acc * 10 + (c - 48)) s

value-append : (acc : ℕ) (s : Str) (c : ℕ) → value acc (s ++ c ∷ []) ≡ value acc s * 10 + (c - 48)
value-append acc [] c = refl
value-append acc (d ∷ s) c = value-append (acc * 10 + (d - 48)) s c

-- What both branches of a test have, the test has.
both_branches :
    {A : Type 0} {B : Type 0} (P : B → Type 0) (d : Dec A) (f : A → B) (g : (A → ⊥) → B)
    → ((a : A) → P (f a))
    → ((n : A → ⊥) → P (g n))
    → P (dite d f g)
both_branches P (yes a) f g hf hg = hf a
both_branches P (no n) f g hf hg = hg n

decimal_loop-Digit : (n : ℕ) (a : Acc ◌<◌ n) → All Digit (decimal_loop n a)
unfolding decimal_loop
decimal_loop-Digit n (Acc.intro _ smaller) =
    both_branches (All Digit) (dec_lt 9 n) _ _
      (λ more.
        All-append Digit (decimal_loop (n / 10) (smaller (n / 10) (quotient_lt n more))) _
          (decimal_loop-Digit (n / 10) (smaller (n / 10) (quotient_lt n more)))
          ((omega arith, omega arith), tt))
      (λ few. ((omega arith, omega arith), tt))

value-decimal_loop : (n : ℕ) (a : Acc ◌<◌ n) → value 0 (decimal_loop n a) ≡ n
unfolding decimal_loop
value-decimal_loop n (Acc.intro _ smaller) =
    both_branches (λ s. value 0 s ≡ n) (dec_lt 9 n) _ _
      (λ more.
        let tens = value-decimal_loop (n / 10) (smaller (n / 10) (quotient_lt n more)) in
        value-append 0 (decimal_loop (n / 10) (smaller (n / 10) (quotient_lt n more))) (48 + n % 10)
        ∙ omega (arith, tens))
      (λ few. omega arith)

pub decimal-Digit : (n : ℕ) → All Digit (decimal n)
unfolding decimal
decimal-Digit n = decimal_loop-Digit n (lt_wf.apply n)

pub value-decimal : (n : ℕ) → value 0 (decimal n) ≡ n
unfolding decimal
value-decimal n = value-decimal_loop n (lt_wf.apply n)

pub decimal_inj : (n m : ℕ) → decimal n ≡ decimal m → n ≡ m
decimal_inj n m e = sym (value-decimal n) ∙ ap (value 0) e ∙ value-decimal m
