-- ===== src/Types/Text.antt =====
-- What crates/sigstore-types/src/checkpoint.rs uses of Rust's `str`, over UTF-8 bytes.
use sigstore_rust.Common.{
  ℕ, zero, suc, ◌+◌, ◌-◌, ◌*◌, ◌^◌, List, [], ◌∷◌, ◌++◌, true, false, ◌&&◌, ◌||◌, Option, none,
  some, Str, ltb, leb, ◌==◌, if◌then◌else◌, is_empty, Bool-cases, inl, inr, ◌≡◌, sym, ◌∙◌, some_inj,
  ◌<◌, arith, ap, refl, ==_iff, and_true,
}
use sigstore_rust.Common.Int.{ℤ, pos, minus}
use mathlib.Core.List.{append_assoc}

-- `split("\n\n")`
split_loop : Str → Str → List Str
split_loop cur [] = cur ∷ []
split_loop cur (c ∷ []) = (cur ++ c ∷ []) ∷ []
split_loop cur (c ∷ d ∷ s) = elim (c == 10 && d == 10) [
  | true ↦ cur ∷ split_loop [] s
  | false ↦ split_loop (cur ++ c ∷ []) (d ∷ s)
]

unfoldable pub split_blank : Str → List Str
unfolding split_loop
split_blank s = split_loop [] s

-- A carriage return before the line feed goes with it.
strip_cr : Str → Str
strip_cr [] = []
strip_cr (c ∷ []) = if c == 13 then [] else c ∷ []
strip_cr (c ∷ d ∷ s) = c ∷ strip_cr (d ∷ s)

lines_loop : Str → Str → List Str
unfolding strip_cr
lines_loop cur [] = if is_empty cur then [] else cur ∷ []
lines_loop cur (c ∷ s) = elim (c == 10) [
  | true ↦ strip_cr cur ∷ lines_loop [] s
  | false ↦ lines_loop (cur ++ c ∷ []) s
]

unfoldable pub lines : Str → List Str
unfolding lines_loop
lines s = lines_loop [] s

-- The bytes of the white space that a text begins with, 0 if it begins with another character.
abbrev pub two_byte : ℕ → ℕ
two_byte d = if d == 0x85 || d == 0xa0 then 2 else 0

abbrev pub three_byte : ℕ → ℕ → ℕ → ℕ
three_byte c d e =
    if (c == 0xe1 && (d == 0x9a && e == 0x80))
      || ((c == 0xe2
            && (d == 0x80 && (leb 0x80 e && leb e 0x8a || (e == 0xa8 || (e == 0xa9 || e == 0xaf)))))
          || ((c == 0xe2 && (d == 0x81 && e == 0x9f)) || (c == 0xe3 && (d == 0x80 && e == 0x80))))
    then 3
    else 0

wide_space : ℕ → Str → ℕ
wide_space c [] = 0
wide_space c (d ∷ []) = if c == 0xc2 then two_byte d else 0
wide_space c (d ∷ e ∷ _) = if c == 0xc2 then two_byte d else three_byte c d e

unfoldable pub space_width : Str → ℕ
unfolding wide_space
space_width [] = 0
space_width (c ∷ s) = if (leb 9 c && leb c 13) || c == 32 then 1 else wide_space c s

-- `trim_start`, where `skip` bytes of a white space are still to go.
trim_loop : ℕ → Str → Str
trim_loop skip [] = []
trim_loop (suc skip) (c ∷ s) = trim_loop skip s
trim_loop zero (c ∷ s) = elim (space_width (c ∷ s)) [ zero ↦ c ∷ s | suc w ↦ trim_loop w s ]

unfoldable pub trim_start : Str → Str
unfolding trim_loop space_width
trim_start s = trim_loop 0 s

unfoldable pub trim_end : Str → Str
unfolding trim_start
trim_end [] = []
trim_end (c ∷ s) = if is_empty (trim_start (c ∷ s)) then [] else c ∷ trim_end s

unfoldable pub trim : Str → Str
unfolding trim_start trim_end
trim s = trim_end (trim_start s)

flush : Str → List Str → List Str
flush [] rest = rest
flush (c ∷ w) rest = (c ∷ w) ∷ rest

words_loop : ℕ → Str → Str → List Str
unfolding flush
words_loop skip cur [] = flush cur []
words_loop (suc skip) cur (c ∷ s) = words_loop skip cur s
words_loop zero cur (c ∷ s) = elim (space_width (c ∷ s)) [
  | zero ↦ words_loop zero (cur ++ c ∷ []) s
  | suc w ↦ flush cur (words_loop w [] s)
]

unfoldable pub split_whitespace : Str → List Str
unfolding words_loop space_width
split_whitespace s = words_loop 0 [] s

-- `parse::<u64>()`: digits after an optional plus sign, below 2^64.
digits_loop : ℕ → Str → Option ℕ
digits_loop acc [] = some acc
digits_loop acc (c ∷ s) =
    let next = acc * 10 + (c - b'0') in
    elim (leb b'0' c && (leb c b'9' && ltb next (2 ^ 64))) [
      | true ↦ digits_loop next s
      | false ↦ none
    ]

unsigned : Str → Option ℕ
unfolding digits_loop
unsigned [] = none
unsigned (c ∷ s) = digits_loop 0 (c ∷ s)

unfoldable pub parse_u64 : Str → Option ℕ
unfolding unsigned
parse_u64 [] = none
parse_u64 (c ∷ s) = if c == b'+' then unsigned s else unsigned (c ∷ s)

-- The first two parts of a list.
abbrev pub first_two : List Str → Option (Str × Str)
first_two [] = none
first_two (a ∷ []) = none
first_two (a ∷ b ∷ _) = some (a, b)

first_two_head : (x : Str) (xs : List Str) {a b : Str} → first_two (x ∷ xs) ≡ some (a, b) → x ≡ a
first_two_head x [] e = cc
first_two_head x (y ∷ ys) e = ap (λ q. q.0) (some_inj e)

abbrev HeadOf : Str → List Str → Type 0
HeadOf text parts =
    (a b : Str) → first_two parts ≡ some (a, b) → (rest : Str) × (text ≡ a ++ (10 ∷ 10 ∷ rest))

split_loop-HeadOf : (cur s : Str) → HeadOf (cur ++ s) (split_loop cur s)
unfolding split_loop
split_loop-HeadOf cur [] a b e = cc
split_loop-HeadOf cur (c ∷ []) a b e = cc
split_loop-HeadOf cur (c ∷ d ∷ s) a b e = elim (Bool-cases (c == 10 && d == 10)) [
  | inl blank ↦
      let (line, feed) = and_true (c == 10) (d == 10) blank in
      (
        s,
        rw
            (
              ← first_two_head cur (split_loop [] s) (rw (blank, split_loop) at e),
              (==_iff c 10).0 line,
              (==_iff d 10).0 feed,
            )
            refl,
      )
  | inr other ↦
      let (rest, cut) =
        split_loop-HeadOf (cur ++ c ∷ []) (d ∷ s) a b (rw (other, split_loop) at e) in
      (rest, sym (append_assoc cur (c ∷ []) (d ∷ s)) ∙ cut)
]

-- The part before the first blank line is what the text begins with.
pub split_blank-HeadOf : (text : Str) → HeadOf text (split_blank text)
unfolding split_blank
split_blank-HeadOf text = split_loop-HeadOf [] text

digits_loop-lt :
    (acc : ℕ) (s : Str) (n : ℕ) → acc < 2 ^ 64 → digits_loop acc s ≡ some n → n < 2 ^ 64
unfolding digits_loop
digits_loop-lt acc [] n h e = rw (some_inj e) at h
digits_loop-lt acc (c ∷ s) n h e =
    elim (Bool-cases (leb b'0' c && (leb c b'9' && ltb (acc * 10 + (c - b'0')) (2 ^ 64)))) [
      | inr bad ↦ cc (rw (bad, digits_loop) at e)
      | inl good ↦
          digits_loop-lt (acc * 10 + (c - b'0')) s n (ground arith) (rw (good, digits_loop) at e)
    ]

unsigned-lt : (s : Str) (n : ℕ) → unsigned s ≡ some n → n < 2 ^ 64
unfolding unsigned
unsigned-lt [] n e = cc
unsigned-lt (c ∷ s) n e = digits_loop-lt 0 (c ∷ s) n (omega arith) e

pub parse_u64-lt : (s : Str) (n : ℕ) → parse_u64 s ≡ some n → n < 2 ^ 64
unfolding parse_u64
parse_u64-lt [] n e = cc
parse_u64-lt (c ∷ s) n e = elim (Bool-cases (c == b'+')) [
  | inl plus ↦ unsigned-lt s n (rw plus at e)
  | inr digit ↦ unsigned-lt (c ∷ s) n (rw digit at e)
]

-- `parse::<i64>()`
abbrev negative : Option ℕ → Option ℤ
negative none = none
negative (some n) = if leb n (2 ^ 63) then some (minus n) else none

abbrev non_negative : Option ℕ → Option ℤ
non_negative none = none
non_negative (some n) = if ltb n (2 ^ 63) then some (pos n) else none

unfoldable pub parse_i64 : Str → Option ℤ
unfolding unsigned parse_u64
parse_i64 [] = none
parse_i64 (c ∷ s) = if c == b'-' then negative (unsigned s) else non_negative (parse_u64 (c ∷ s))
