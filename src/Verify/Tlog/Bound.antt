-- ===== src/Verify/Tlog/Bound.antt =====
-- crates/sigstore-verify/src/verify_impl/tlog.rs: what an entry's inclusion proof has established.
use sigstore_rust.Common.{
  List, [], ◌∷◌, Bytes, Str, some, bytes_eq, length, eq_of_bytes_eq, In, In-tail, ◌≡◌, refl, ◌⊎◌,
  inl, inr, Bool-cases, Option-cases, sym, ◌∙◌, arith,
}
use mathlib.Core.Path.{subst}
use sigstore_rust.Common.Fallible.{ok, >>=-eq-ok, ok_or_then_ok, ensure_then_ok}
use sigstore_rust.Merkle.Tree.{hash_leaf}
use sigstore_rust.Merkle.Inclusion.{verify_inclusion_proof}
use sigstore_rust.Merkle.Inclusion.Bound.{Holds, verify_inclusion_proof_binds}
use sigstore_rust.Merkle.Inclusion.Levels.{Wide}
use sigstore_rust.Merkle.Spec.Collisions.{Collision}
use sigstore_rust.Merkle.Spec.Tree.{MerkleTree, root}
use sigstore_rust.Types.Encoding.{KeyHint, index_as_u64}
use sigstore_rust.Types.Checkpoint.{Checkpoint, CheckpointSignature, from_text, signed_data}
use sigstore_rust.Types.Bundle.{TransparencyLogEntry, InclusionProof}
use sigstore_rust.TrustRoot.{TrustedRoot, Timestamp, TransparencyLog}
use sigstore_rust.TrustRoot.Keys.{rekor_keys_with_hints}
use sigstore_rust.TrustRoot.Windows.{Started}
use sigstore_rust.TrustRoot.Lookup.{Hinted, rekor_keys_with_hints_sound}
use sigstore_rust.Crypto.Checkpoint.{verify_signature_auto}
use sigstore_rust.Verify.Platform.{Platform, or_verification, or_verification-eq-ok}
use sigstore_rust.Verify.Tlog.{
  verify_merkle_inclusion, matching_key, verify_first_match, verify_checkpoint,
  verify_entry_inclusion,
}

module _ (p : Platform) where
  -- A log of the trusted root, whose key's window has started, signed the text of the checkpoint: the
  -- signature has the key's hint.
  abbrev pub SignedByLog : TrustedRoot → Timestamp → Checkpoint → Type 0
  SignedByLog trusted_root now checkpoint =
      (sig : CheckpointSignature) × (tlog : TransparencyLog) × In checkpoint.signatures sig
      × In trusted_root.tlogs tlog
      × Started p.parse_timestamp tlog.public_key.valid_for now
      × Hinted p.parse_timestamp p.codec tlog sig.key_id tlog.public_key.raw_bytes
      × (verify_signature_auto p.keys p.spki_oid tlog.public_key.raw_bytes sig.signature
            (signed_data checkpoint)
          ≡ ok tt)

  matching_key-In :
      (hint : KeyHint) (keys : List (KeyHint × Bytes)) (key : Bytes)
      → matching_key p hint keys ≡ some key
      → In keys (hint, key)
  unfolding matching_key
  matching_key-In hint [] key e = cc
  matching_key-In hint (k ∷ keys) key e = elim (Bool-cases (bytes_eq hint k.0)) [
    | inl same ↦ (0, ground (arith, eq_of_bytes_eq hint k.0 same))
    | inr other ↦ In-tail k keys (matching_key-In hint keys key (rw other at e))
  ]

  -- Some signature has a key of the list that verifies it.
  Verified : Bytes → List (KeyHint × Bytes) → List CheckpointSignature → Type 0
  Verified message keys sigs =
      (sig : CheckpointSignature) × (key : Bytes) × In sigs sig
      × In keys (sig.key_id, key)
      × (verify_signature_auto p.keys p.spki_oid key sig.signature message ≡ ok tt)

  verify_first_match-Verified :
      (message : Bytes) (keys : List (KeyHint × Bytes)) (sigs : List CheckpointSignature)
      → verify_first_match p message keys sigs ≡ ok tt
      → Verified message keys sigs
  unfolding verify_first_match Verified
  verify_first_match-Verified message keys [] e = cc
  verify_first_match-Verified message keys (sig ∷ sigs) e =
      elim (Option-cases (matching_key p sig.key_id keys)) [
        | inl missing ↦
            let (s, key, at, has, good) =
              verify_first_match-Verified message keys sigs
                (rw (missing, verify_first_match) at e) in
            (s, key, In-tail sig sigs at, has, good)
        | inr (key, found) ↦ (
          sig,
          key,
          (0, refl),
          matching_key-In sig.key_id keys key found,
          or_verification-eq-ok _ (rw (found, verify_first_match) at e),
        )
      ]

  pub verify_checkpoint_ok :
      (envelope : Str) (proof : InclusionProof) (trusted_root : TrustedRoot) (now : Timestamp)
      → verify_checkpoint p envelope proof trusted_root now ≡ ok tt
      → (checkpoint : Checkpoint) × (from_text p.codec envelope ≡ ok checkpoint)
        × (checkpoint.root_hash ≡ proof.root_hash)
        × SignedByLog trusted_root now checkpoint
  unfolding verify_checkpoint Verified
  verify_checkpoint_ok envelope proof trusted_root now e =
      let (cp, parsed, e1) = >>=-eq-ok (or_verification (from_text p.codec envelope)) _ e in
      let (same, e2) = ensure_then_ok (bytes_eq cp.root_hash proof.root_hash) _ _ e1 in
      let (keys, known, e3) =
        >>=-eq-ok
          (or_verification (rekor_keys_with_hints p.parse_timestamp p.codec trusted_root now)) _
          e2 in
      let (sig, key, at, has, good) =
        verify_first_match-Verified (signed_data cp) keys cp.signatures e3 in
      let (tlog, among, started, (id, decoded, long, hint, bytes)) =
        rekor_keys_with_hints_sound p.parse_timestamp p.codec trusted_root now keys
          (sig.key_id, key) (or_verification-eq-ok _ known) has in
      (
        cp,
        or_verification-eq-ok _ parsed,
        eq_of_bytes_eq _ _ same,
        (sig, tlog, at, among, started, (id, decoded, long, hint, refl), rw bytes at good),
      )

  module _ (sha256_width : (b : Bytes) → length (p.keys.sha256 b) ≡ 32) where
    verify_merkle_inclusion_binds :
        (entry : TransparencyLogEntry) (proof : InclusionProof) (t : MerkleTree)
        → Wide proof.hashes
        → root p.keys.sha256 t ≡ proof.root_hash
        → verify_merkle_inclusion p entry proof ≡ ok tt
        → Holds t entry.canonicalized_body ⊎ Collision p.keys.sha256
    unfolding verify_merkle_inclusion
    verify_merkle_inclusion_binds entry proof t wide r e =
        let (i, _, e1) = ok_or_then_ok (index_as_u64 proof.log_index) _ _ e in
        let (n, _, e2) = ok_or_then_ok (index_as_u64 proof.tree_size) _ _ e1 in
        verify_inclusion_proof_binds p.keys.sha256 sha256_width t entry.canonicalized_body i n
          proof.hashes wide
          (subst
            (λ h.
              verify_inclusion_proof p.keys.sha256
                (hash_leaf p.keys.sha256 entry.canonicalized_body) i n proof.hashes h
              ≡ ok tt)
            (sym r) (or_verification-eq-ok _ e2))

    -- An entry with an inclusion proof that is accepted is in the log: the proof's checkpoint parses, a
    -- log of the trusted root, whose key's window has started, signed its text, and every tree with the
    -- checkpoint's root hash has the entry's body as a leaf, or two inputs with one SHA-256 digest are at
    -- hand. The digests are 32 bytes wide, and so are the proof's hashes.
    pub verify_entry_inclusion_binds :
        (entry : TransparencyLogEntry) (proof : InclusionProof) (trusted_root : TrustedRoot)
        (now : Timestamp)
        → entry.inclusion_proof ≡ some proof
        → Wide proof.hashes
        → verify_entry_inclusion p entry trusted_root now ≡ ok tt
        → (checkpoint : Checkpoint) × (from_text p.codec proof.checkpoint ≡ ok checkpoint)
          × SignedByLog trusted_root now checkpoint
          × ((t : MerkleTree)
              → root p.keys.sha256 t ≡ checkpoint.root_hash
              → Holds t entry.canonicalized_body ⊎ Collision p.keys.sha256)
    unfolding verify_entry_inclusion
    verify_entry_inclusion_binds entry proof trusted_root now has wide e =
        let (_, included, _) = >>=-eq-ok _ _ (rw has at e) in
        let (_, merkle, checked) = >>=-eq-ok (verify_merkle_inclusion p entry proof) _ included in
        let (cp, parsed, same, signed) =
          verify_checkpoint_ok proof.checkpoint proof trusted_root now checked in
        (
          cp,
          parsed,
          signed,
          (λ t r. verify_merkle_inclusion_binds entry proof t wide (r ∙ same) merkle),
        )
