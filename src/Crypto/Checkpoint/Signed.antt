-- ===== src/Crypto/Checkpoint/Signed.antt =====
-- What a checkpoint whose signature is accepted for a key has.
use sigstore_rust.Common.{
  [], ◌∷◌, List, true, Bytes, Str, str, Option, none, some, bytes_eq, eq_of_bytes_eq, length, take,
  In, In-tail, ◌==◌, ==_iff, ◌≡◌, refl, sym, ap, ◌∙◌, ◌⊎◌, inl, inr, Bool-cases,
}
use sigstore_rust.Common.Fallible.{ok, err, ensure-eq-ok, ok_or_then_ok}
use sigstore_rust.Types.Encoding.{KeyHint}
use sigstore_rust.Types.Checkpoint.{
  Checkpoint, CheckpointSignature, find_signature, find_signature_by_key_hint, signed_data,
}
use sigstore_rust.Crypto.Error.{Result, verification}
use sigstore_rust.Tuf.Key.{Crypto, ecdsa_p256_sha256}
use sigstore_rust.Tuf.Key
use sigstore_rust.Crypto.Checkpoint.{
  compute_key_hint, detect_key_type, extract_raw_key, verify_ed25519, verify_ecdsa_p256,
  verify_signature_auto, or_checkpoint, verify_checkpoint_signature,
}

find_signature-In :
    (sigs : List CheckpointSignature) (hint : KeyHint) (sig : CheckpointSignature)
    → find_signature sigs hint ≡ some sig
    → In sigs sig × (sig.key_id ≡ hint)
unfolding find_signature
find_signature-In [] hint sig e = cc
find_signature-In (s ∷ sigs) hint sig e = elim (Bool-cases (bytes_eq s.key_id hint)) [
  | inl same ↦
      let found : s ≡ sig = cc (rw same at e) in
      ((0, ap some found), ap (λ x. x.key_id) (sym found) ∙ eq_of_bytes_eq s.key_id hint same)
  | inr other ↦
      let (there, hinted) = find_signature-In sigs hint sig (rw other at e) in
      (In-tail s sigs there, hinted)
]

module _ (c : Crypto) (spki_oid : Bytes → Option Str) where
  -- The key is an Ed25519 key by itself, or one of the two kinds of SPKI, and its scheme verifies.
  abbrev pub Authentic : Bytes → Bytes → Bytes → Type 0
  Authentic key signature message =
      ((raw : Bytes) × (spki_oid key ≡ some (str "1.3.101.112"))
        × (c.subject_public_key key ≡ some raw)
        × (c.verify Key.ed25519 raw message signature ≡ true))
      ⊎ (((spki_oid key ≡ some (str "1.2.840.10045.2.1"))
            × (c.verify ecdsa_p256_sha256 key message signature ≡ true))
          ⊎ ((spki_oid key ≡ none)
              × (length key ≡ 32)
              × (c.verify Key.ed25519 key message signature ≡ true)))

  checkpoint_ok : (r : Result (Unit {0})) → or_checkpoint c spki_oid r ≡ ok tt → r ≡ ok tt
  checkpoint_ok (ok done) e = e
  checkpoint_ok (err why) e = cc

  -- The scheme for a key whose algorithm is read, or not.
  auto-spki :
      (key signature message : Bytes) (oid : Str)
      → spki_oid key ≡ some oid
      → verify_signature_auto c spki_oid key signature message ≡ ok tt
      → ((oid ≡ str "1.3.101.112") × (verify_ed25519 c spki_oid key signature message ≡ ok tt))
        ⊎ ((oid ≡ str "1.2.840.10045.2.1")
            × (verify_ecdsa_p256 c spki_oid key signature message ≡ ok tt))
  unfolding verify_signature_auto detect_key_type
  auto-spki key signature message oid o e = elim (Bool-cases (bytes_eq oid (str "1.3.101.112"))) [
    | inl ed ↦
        inl (eq_of_bytes_eq oid _ ed, rw (o, ed, verify_signature_auto, detect_key_type) at e)
    | inr other ↦ elim (Bool-cases (bytes_eq oid (str "1.2.840.10045.2.1"))) [
      | inl ec ↦
          inr (
            eq_of_bytes_eq oid _ ec,
            rw (o, other, ec, verify_signature_auto, detect_key_type) at e,
          )
      | inr neither ↦
          absurd (cc (rw (o, other, neither, verify_signature_auto, detect_key_type) at e))
    ]
  ]

  auto-raw :
      (key signature message : Bytes)
      → spki_oid key ≡ none
      → verify_signature_auto c spki_oid key signature message ≡ ok tt
      → (length key ≡ 32) × (verify_ed25519 c spki_oid key signature message ≡ ok tt)
  unfolding verify_signature_auto detect_key_type
  auto-raw key signature message o e = elim (Bool-cases (length key == 32)) [
    | inl wide ↦
        ((==_iff (length key) 32).0 wide, rw (o, wide, verify_signature_auto, detect_key_type) at e)
    | inr other ↦ absurd (cc (rw (o, other, verify_signature_auto, detect_key_type) at e))
  ]

  verify_ed25519_ok :
      (key signature message : Bytes) (raw : Bytes)
      → extract_raw_key c spki_oid key ≡ raw
      → verify_ed25519 c spki_oid key signature message ≡ ok tt
      → c.verify Key.ed25519 raw message signature ≡ true
  unfolding verify_ed25519
  verify_ed25519_ok key signature message raw r e =
      ensure-eq-ok _ verification (rw (r, verify_ed25519) at e)

  module _
      (parsed : (b : Bytes) (oid : Str)
        → spki_oid b ≡ some oid
        → (raw : Bytes) × (c.subject_public_key b ≡ some raw))
      (unparsed : (b : Bytes) → spki_oid b ≡ none → c.subject_public_key b ≡ none) where
    auto-Authentic :
        (key signature message : Bytes) (oid : Option Str)
        → spki_oid key ≡ oid
        → verify_signature_auto c spki_oid key signature message ≡ ok tt
        → Authentic key signature message
    unfolding extract_raw_key verify_ecdsa_p256
    auto-Authentic key signature message none o e =
        let (wide, run) = auto-raw key signature message o e in
        inr (
          inr (
            o,
            wide,
            verify_ed25519_ok key signature message key (rw (unparsed key o, extract_raw_key) refl)
                run,
          ))
    auto-Authentic key signature message (some oid) o e =
        elim (auto-spki key signature message oid o e) [
          | inl (is, run) ↦
              let (raw, found) = parsed key oid o in
              inl (
                raw,
                o ∙ ap some is,
                found,
                verify_ed25519_ok key signature message raw (rw (found, extract_raw_key) refl) run,
              )
          | inr (is, run) ↦ inr (inl (o ∙ ap some is, ensure-eq-ok _ verification run))
        ]

    -- A checkpoint whose signature is accepted for a public key has a signature with the first four bytes
    -- of the key's SHA-256 digest, over the text before the signatures: by the Ed25519 key that the bytes
    -- are, or, for an SPKI, by its Ed25519 or its ECDSA P-256 key. The two readings of an SPKI succeed for
    -- the same bytes.
    pub verify_checkpoint_signature-Authentic :
        (checkpoint : Checkpoint) (key : Bytes)
        → verify_checkpoint_signature c spki_oid checkpoint key ≡ ok tt
        → (sig : CheckpointSignature) × In checkpoint.signatures sig
          × (sig.key_id ≡ take 4 (c.sha256 key))
          × Authentic key sig.signature checkpoint.signed_note_text
    unfolding verify_checkpoint_signature find_signature_by_key_hint signed_data compute_key_hint
    verify_checkpoint_signature-Authentic checkpoint key e =
        let (sig, found, run) =
          ok_or_then_ok (find_signature checkpoint.signatures (take 4 (c.sha256 key))) _ _ e in
        let (there, hinted) = find_signature-In checkpoint.signatures _ sig found in
        (
          sig,
          there,
          hinted,
          auto-Authentic key sig.signature checkpoint.signed_note_text (spki_oid key) refl
              (checkpoint_ok _ run),
        )
