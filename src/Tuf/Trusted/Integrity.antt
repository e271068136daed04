-- ===== src/Tuf/Trusted/Integrity.antt =====
-- `check_integrity` of crates/sigstore-tuf/src/trusted.rs: what it accepts, exactly.
use sigstore_rust.Common.{
  ℕ, [], ◌∷◌, Bool, true, false, Option, none, some, Bytes, Str, Map, length, ◌==◌, ◌≡◌, ◌⊎◌, ◌↔◌,
  refl, arith, inl, inr, Bool-cases, Option-cases, All, ap,
}
use sigstore_rust.Common.Fallible.{ok}
use sigstore_rust.Tuf.Key.{Crypto}
use sigstore_rust.Tuf.Metadata.{MetaFile}
use sigstore_rust.Tuf.Trusted.{digest_hex, eq_ignore_ascii_case, check_hashes, check_integrity}

module _ (c : Crypto) (bytes : Bytes) where
  -- A pinned hash of a supported algorithm is that of the bytes.
  abbrev pub Agrees : Str × Str → Type 0
  Agrees (algo, expected_hex) =
      (actual : Str)
      → digest_hex c algo bytes ≡ some actual
      → eq_ignore_ascii_case actual expected_hex ≡ true

  abbrev pub HasSupported : Map Str → Type 0
  HasSupported [] = ⊥
  HasSupported ((algo, expected_hex) ∷ rest) =
      ((actual : Str) × (digest_hex c algo bytes ≡ some actual)) ⊎ HasSupported rest

  check_hashes_sound :
      (b : Bool) (hs : Map Str)
      → check_hashes c bytes b hs ≡ ok true
      → All Agrees hs × ((b ≡ true) ⊎ HasSupported hs)
  unfolding check_hashes
  check_hashes_sound b [] e = (tt, inl (cc))
  check_hashes_sound b ((algo, hex) ∷ hs) e = elim (Option-cases (digest_hex c algo bytes)) [
    | inl other ↦
        let (agree, some_known) = check_hashes_sound b hs (ground arith) in
        ((λ actual k. cc, agree), elim some_known [ inl t ↦ inl t | inr k ↦ inr (inr k) ])
    | inr (actual, known) ↦ elim (Bool-cases (eq_ignore_ascii_case actual hex)) [
      | inl same ↦
          let (agree, _) = check_hashes_sound true hs (ground arith) in
          ((λ other k. ground arith, agree), inr (inl (actual, known)))
      | inr differ ↦ absurd (ground arith)
    ]
  ]

  check_hashes_complete :
      (b : Bool) (hs : Map Str)
      → All Agrees hs
      → (b ≡ true) ⊎ HasSupported hs
      → check_hashes c bytes b hs ≡ ok true
  unfolding check_hashes
  check_hashes_complete b [] a (inl h) = ap ok h
  check_hashes_complete b [] a (inr h) = absurd h
  check_hashes_complete b ((algo, hex) ∷ hs) a h = elim (Option-cases (digest_hex c algo bytes)) [
    | inl other ↦ ground (arith, check_hashes_complete b hs a.1 (still h other))
    | inr (actual, known) ↦
        ground (arith, a.0 actual known, check_hashes_complete true hs a.1 (inl refl))
  ]
    where
      still :
          (b ≡ true)
            ⊎ (((actual : Str) × (digest_hex c algo bytes ≡ some actual)) ⊎ HasSupported hs)
          → digest_hex c algo bytes ≡ none
          → (b ≡ true) ⊎ HasSupported hs
      still (inl t) other = inl t
      still (inr (inl (actual, known))) other = cc
      still (inr (inr k)) other = inr k

  -- What a pin asks of the bytes.
  abbrev pub LengthMatches : Option ℕ → Type 0
  LengthMatches none = Unit
  LengthMatches (some n) = length bytes ≡ n

  abbrev pub HashesMatch : Option (Map Str) → Type 0
  HashesMatch none = Unit
  HashesMatch (some hs) = All Agrees hs × HasSupported hs

pub matched :
    (c : Crypto) (bytes : Bytes) (hs : Map Str)
    → check_hashes c bytes false hs ≡ ok true
    → All (Agrees c bytes) hs × HasSupported c bytes hs
matched c bytes hs e =
    let (agree, known) = check_hashes_sound c bytes false hs e in
    (agree, elim known [ inl f ↦ cc | inr k ↦ k ])

by_parts :
    (c : Crypto) (bytes : Bytes) (v : ℕ) (n : Option ℕ) (hs : Option (Map Str))
    → (check_integrity c bytes (record { version = v; length = n; hashes = hs }) ≡ ok tt)
      ↔ (LengthMatches c bytes n × HashesMatch c bytes hs)
unfolding check_integrity
by_parts c bytes v none none = ((λ e. (tt, tt)), (λ h. refl))
by_parts c bytes v (some n) none = ((λ e. (ground arith, tt)), (λ h. ground arith))
by_parts c bytes v none (some hs) = (
  (λ e. (tt, matched c bytes hs (ground arith))),
  (λ h. rw (check_hashes_complete c bytes false hs h.1.0 (inr h.1.1))),
)
by_parts c bytes v (some n) (some hs) = (
  (λ e. (ground arith, matched c bytes hs (ground arith))),
  (λ h.
      let same : (length bytes == n) ≡ true = ground arith in
      rw (same, check_hashes_complete c bytes false hs h.1.0 (inr h.1.1))),
)

-- A file passes the check of a pin exactly if its length is the pinned one, where one is pinned, and,
-- where hashes are pinned, every hash of a supported algorithm is the file's, up to the case of its
-- letters, and at least one algorithm is supported.
pub check_integrity_iff :
    (c : Crypto) (bytes : Bytes) (meta : MetaFile)
    → (check_integrity c bytes meta ≡ ok tt)
      ↔ (LengthMatches c bytes meta.length × HashesMatch c bytes meta.hashes)
check_integrity_iff c bytes meta = by_parts c bytes meta.version meta.length meta.hashes
