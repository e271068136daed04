-- ===== src/Tuf/Client/Names.antt =====
-- `encode_role` of crates/sigstore-tuf/src/client.rs: two role names never share a file name.
use sigstore_rust.Common.{
  ℕ, ◌/◌, ◌%◌, ◌<◌, [], ◌∷◌, false, Str, ◌≡◌, refl, arith, inl, inr, Bool-cases, All,
}
use sigstore_rust.Tuf.Client.Files.{hex_digit, is_unreserved, encode_role}

hex_digit_inj : (a b : ℕ) → a < 16 → b < 16 → hex_digit a ≡ hex_digit b → a ≡ b
hex_digit_inj a b h k e = ground arith

percent_reserved : is_unreserved b'%' ≡ false
unfolding is_unreserved
percent_reserved = refl

byte_inj :
    (a b : ℕ)
    → a < 256
    → b < 256
    → hex_digit (a / 16) ≡ hex_digit (b / 16)
    → hex_digit (a % 16) ≡ hex_digit (b % 16)
    → a ≡ b
byte_inj a b h k d e = omega (
  arith,
  hex_digit_inj (a / 16) (b / 16) (omega arith) (omega arith) d,
  hex_digit_inj (a % 16) (b % 16) (omega arith) (omega arith) e,
)

-- Two names of bytes with the same encoding are the same name.
pub encode_role_inj :
    (r s : Str)
    → All (λ b. b < 256) r
    → All (λ b. b < 256) s
    → encode_role r ≡ encode_role s
    → r ≡ s
unfolding encode_role
encode_role_inj [] [] h k e = refl
encode_role_inj [] (b ∷ s) h k e = elim (Bool-cases (is_unreserved b)) [ inl u ↦ cc | inr u ↦ cc ]
encode_role_inj (a ∷ r) [] h k e = elim (Bool-cases (is_unreserved a)) [ inl u ↦ cc | inr u ↦ cc ]
encode_role_inj (a ∷ r) (b ∷ s) h k e = elim (Bool-cases (is_unreserved a)) [
  | inl u ↦ elim (Bool-cases (is_unreserved b)) [
    | inl v ↦ ground (arith, encode_role_inj r s h.1 k.1)
    | inr v ↦ ground (arith, percent_reserved)
  ]
  | inr u ↦ elim (Bool-cases (is_unreserved b)) [
    | inl v ↦ ground (arith, percent_reserved)
    | inr v ↦ ground (arith, encode_role_inj r s h.1 k.1, byte_inj a b h.0 k.0)
  ]
]
