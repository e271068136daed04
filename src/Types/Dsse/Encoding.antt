-- ===== src/Types/Dsse/Encoding.antt =====
-- crates/sigstore-types/src/dsse.rs: the encoding of `pae` and the fields in it.
use sigstore_rust.Common.{
  List, [], ◌∷◌, ◌++◌, Bytes, Str, str, All, length, append-split, ◌≡◌, refl, arith,
}
use sigstore_rust.Tuf.Json.{decimal}
use sigstore_rust.Tuf.Json.Decimal.{Digit, decimal-Digit, decimal_inj}
use sigstore_rust.Types.Dsse.{pae}

rest_eq : {A : Type 0} {x : A} {xs ys : List A} → (x ∷ xs) ≡ (x ∷ ys) → xs ≡ ys
rest_eq h = cc

-- The digits before the first space.
digits_split :
    (d e : Str) (xs ys : Bytes)
    → All Digit d
    → All Digit e
    → (d ++ (b' ' ∷ xs)) ≡ (e ++ (b' ' ∷ ys))
    → (d ≡ e) × (xs ≡ ys)
digits_split [] [] xs ys p q h = (refl, rest_eq h)
digits_split [] (c ∷ e) xs ys p q h = ground arith
digits_split (c ∷ d) [] xs ys p q h = ground arith
digits_split (c ∷ d) (c' ∷ e) xs ys p q h = ground (arith, digits_split d e xs ys p.1 q.1)

-- A field with its length in front of it, and what follows it.
field_split :
    (t u xs ys : Bytes)
    → (decimal (length t) ++ (b' ' ∷ (t ++ xs))) ≡ (decimal (length u) ++ (b' ' ∷ (u ++ ys)))
    → (t ≡ u) × (xs ≡ ys)
field_split t u xs ys h =
    let (same, rest) =
      digits_split _ _ _ _ (decimal-Digit (length t)) (decimal-Digit (length u)) h in
    append-split t u xs ys (decimal_inj _ _ same) rest

-- Two envelopes with one encoding have the same payload type and the same payload.
pub pae_inj : (t u : Str) (b c : Bytes) → pae t b ≡ pae u c → (t ≡ u) × (b ≡ c)
unfolding pae
pae_inj t u b c h =
    let (_, h1) = append-split (str "DSSEv1 ") (str "DSSEv1 ") _ _ refl h in
    let (types, h2) = field_split t u _ _ h1 in
    let (_, h3) =
      digits_split (decimal (length b)) (decimal (length c)) b c (decimal-Digit (length b))
        (decimal-Digit (length c)) (rest_eq h2) in
    (types, h3)
