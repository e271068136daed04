-- ===== src/Verify/Verifier/Artifacts.antt =====
-- crates/sigstore-verify/src/verify.rs: what the signature check establishes about the artifact.
use sigstore_rust.Common.{
  ℕ, suc, List, [], ◌∷◌, true, Bytes, Str, str, Option, none, some, bytes_eq, get_elem?,
  eq_of_bytes_eq, Bool-cases, Option-cases, ◌≡◌, refl, ap, sym, ◌∙◌, inl, inr, is_empty, not,
}
use sigstore_rust.Common.Fallible.{
  ok, Result-cases, >>=-eq-ok, ensure-eq-ok, ensure_then_ok, ok_or_then_ok,
}
use sigstore_rust.Types.Artifact.{Artifact, raw_bytes, digest, HashAlgorithm, sha2_256}
use sigstore_rust.Types.Encoding.{sha256_try_from_slice, sha256_try_from_slice-eq-ok}
use sigstore_rust.Types.Dsse.{
  DsseEnvelope, DsseSignature, Subject, Statement, pae, matches_sha256, any_sha256,
}
use sigstore_rust.Types.Bundle.{SignatureContent, message_signature, dsse_envelope, MessageDigest}
use sigstore_rust.Tuf.Key.{SigningScheme}
use sigstore_rust.Crypto.Signing.{default_signing_scheme, supports_prehashed}
use sigstore_rust.Crypto.X509.{CertificateInfo}
use sigstore_rust.Crypto.Verification.{
  scheme_hash, verify_signature, verify_signature_prehashed, verify_prehashed, from_spki,
}
use sigstore_rust.Crypto.Verification
use sigstore_rust.Verify.Platform.{Platform, or_verification, or_verification-eq-ok}
use sigstore_rust.Verify.Content.{
  compute_artifact_digest_algo, verify_dsse_artifact_binding, verify_signature_over_artifact,
  signature_scheme, verify_message_signature_crypto, check_message_digest, any_sig_valid,
  verify_envelope, verify_content,
}

module _ (p : Platform) where
  -- The key of `public_key` verifies the signature of a message, or of a digest.
  abbrev pub Signs : Bytes → SigningScheme → Bytes → Bytes → Type 0
  Signs public_key scheme message signature =
      (raw : Bytes) × (p.keys.subject_public_key public_key ≡ some raw)
      × (p.keys.verify scheme raw message signature ≡ true)

  abbrev pub SignsDigest : Bytes → SigningScheme → Bytes → Bytes → Type 0
  SignsDigest public_key scheme hash signature =
      (raw : Bytes) × (algorithm : HashAlgorithm) × (p.keys.subject_public_key public_key
        ≡ some raw)
      × (scheme_hash scheme ≡ some algorithm)
      × (p.prehashed.import_digest algorithm hash ≡ true)
      × (p.prehashed.verify_digest scheme raw hash signature ≡ true)

  abbrev pub SignsArtifact : Bytes → SigningScheme → Bytes → Artifact → Type 0
  SignsArtifact public_key scheme signature (raw_bytes bytes) =
      Signs public_key scheme bytes signature
  SignsArtifact public_key scheme signature (digest hash) =
      SignsDigest public_key scheme hash signature

  -- A subject of the statement has the digest, in hex.
  abbrev pub HasSubject : Statement → Str → Type 0
  HasSubject statement hash_hex =
      (i : ℕ) × (s : Subject) × (get_elem? statement.subject i ≡ some s)
      × (s.digest.sha256 ≡ some hash_hex)

  -- The envelope is an in-toto statement about the artifact, and one of its signatures is good.
  abbrev pub EnvelopeSigned : Bytes → SigningScheme → DsseEnvelope → Artifact → Type 0
  EnvelopeSigned public_key scheme envelope artifact =
      ((i : ℕ) × (s : DsseSignature) × (get_elem? envelope.signatures i ≡ some s)
        × Signs public_key scheme (pae envelope.payload_type envelope.payload) s.sig)
      × (envelope.payload_type ≡ str "application/vnd.in-toto+json")
      × ((hash : Bytes) × (text : Str) × (statement : Statement) × (compute_artifact_digest_algo p
              artifact sha2_256
            ≡ ok hash)
          × (p.from_utf8 envelope.payload ≡ some text)
          × (p.parse_statement text ≡ some statement)
          × HasSubject statement (p.codec.hex_encode hash))

  abbrev pub DigestMatches : Option MessageDigest → Artifact → Type 0
  DigestMatches none artifact = Unit {0}
  DigestMatches (some declared) artifact =
      compute_artifact_digest_algo p artifact declared.algorithm ≡ ok declared.digest

  abbrev pub ContentSigned : CertificateInfo → SignatureContent → Artifact → Type 0
  ContentSigned info (message_signature m) artifact =
      DigestMatches m.message_digest artifact
      × ((scheme : SigningScheme) × (signature_scheme p info m.message_digest ≡ ok scheme)
          × SignsArtifact info.public_key scheme m.signature artifact)
  ContentSigned info (dsse_envelope e) artifact =
      EnvelopeSigned info.public_key (default_signing_scheme info.key_algorithm) e artifact

  verify_signature-Signs :
      (public_key message signature : Bytes) (scheme : SigningScheme)
      → verify_signature p.keys public_key message signature scheme ≡ ok tt
      → Signs public_key scheme message signature
  unfolding verify_signature from_spki Verification.verify
  verify_signature-Signs public_key message signature scheme e =
      elim (Option-cases (p.keys.subject_public_key public_key)) [
        | inl missing ↦ cc (rw missing at e)
        | inr (raw, found) ↦ (raw, found, ensure-eq-ok _ _ (rw found at e))
      ]

  verify_signature_prehashed-SignsDigest :
      (public_key hash signature : Bytes) (scheme : SigningScheme)
      → verify_signature_prehashed p.keys p.prehashed public_key hash signature scheme ≡ ok tt
      → SignsDigest public_key scheme hash signature
  unfolding verify_signature_prehashed from_spki verify_prehashed
  verify_signature_prehashed-SignsDigest public_key hash signature scheme e =
      elim (Option-cases (p.keys.subject_public_key public_key)) [
        | inl missing ↦ cc (rw missing at e)
        | inr (raw, found) ↦
            let (algorithm, hashes, e1) = ok_or_then_ok (scheme_hash scheme) _ _ (rw found at e) in
            let (imported, e2) = ensure_then_ok (p.prehashed.import_digest algorithm hash) _ _ e1 in
            (raw, algorithm, found, hashes, imported, ensure-eq-ok _ _ e2)
      ]

  pub verify_signature_over_artifact-SignsArtifact :
      (public_key : Bytes) (scheme : SigningScheme) (signature : Bytes) (artifact : Artifact)
      → verify_signature_over_artifact p public_key scheme signature artifact ≡ ok tt
      → SignsArtifact public_key scheme signature artifact
  unfolding verify_signature_over_artifact
  verify_signature_over_artifact-SignsArtifact public_key scheme signature (raw_bytes bytes) e =
      verify_signature-Signs public_key bytes signature scheme (or_verification-eq-ok _ e)
  verify_signature_over_artifact-SignsArtifact public_key scheme signature (digest hash) e =
      verify_signature_prehashed-SignsDigest public_key hash signature scheme
        (or_verification-eq-ok _ (ensure_then_ok (supports_prehashed scheme) _ _ e).1)

  any_sha256-HasSubject :
      (subjects : List Subject) (hash_hex : Str)
      → any_sha256 subjects hash_hex ≡ true
      → (i : ℕ) × (s : Subject) × (get_elem? subjects i ≡ some s)
        × (s.digest.sha256 ≡ some hash_hex)
  unfolding any_sha256
  any_sha256-HasSubject [] hash_hex h = cc
  any_sha256-HasSubject (s ∷ rest) hash_hex h = elim (Option-cases s.digest.sha256) [
    | inl missing ↦
        let (i, t, at, has) = any_sha256-HasSubject rest hash_hex (rw missing at h) in
        (suc i, t, at, has)
    | inr (x, found) ↦ elim (Bool-cases (bytes_eq x hash_hex)) [
      | inl same ↦ (0, s, refl, found ∙ ap some (eq_of_bytes_eq x hash_hex same))
      | inr other ↦
          let (i, t, at, has) = any_sha256-HasSubject rest hash_hex (rw (found, other) at h) in
          (suc i, t, at, has)
    ]
  ]

  any_sig_valid-Signs :
      (public_key message : Bytes) (scheme : SigningScheme) (sigs : List DsseSignature)
      → any_sig_valid p public_key message scheme sigs ≡ true
      → (i : ℕ) × (s : DsseSignature) × (get_elem? sigs i ≡ some s)
        × Signs public_key scheme message s.sig
  unfolding any_sig_valid
  any_sig_valid-Signs public_key message scheme [] h = cc
  any_sig_valid-Signs public_key message scheme (s ∷ rest) h =
      elim (Result-cases (verify_signature p.keys public_key message s.sig scheme)) [
        | inl (_, good) ↦ (0, s, refl, verify_signature-Signs public_key message s.sig scheme good)
        | inr (_, bad) ↦
            let (i, t, at, signs) =
              any_sig_valid-Signs public_key message scheme rest (rw bad at h) in
            (suc i, t, at, signs)
      ]

  pub verify_envelope-EnvelopeSigned :
      (public_key : Bytes) (scheme : SigningScheme) (envelope : DsseEnvelope) (artifact : Artifact)
      → verify_envelope p public_key scheme envelope artifact ≡ ok tt
      → EnvelopeSigned public_key scheme envelope artifact
  unfolding verify_envelope verify_dsse_artifact_binding matches_sha256 sha256_try_from_slice
  verify_envelope-EnvelopeSigned public_key scheme envelope artifact e =
      let (valid, e1) =
        ensure_then_ok
          (any_sig_valid p public_key (pae envelope.payload_type envelope.payload) scheme
            envelope.signatures)
          _ _ e in
      let (in_toto, e2) =
        ensure_then_ok (bytes_eq envelope.payload_type (str "application/vnd.in-toto+json")) _ _
          e1 in
      let (hash, hashed, e3) = >>=-eq-ok (compute_artifact_digest_algo p artifact sha2_256) _ e2 in
      let (hash', checked, e4) = >>=-eq-ok (or_verification (sha256_try_from_slice hash)) _ e3 in
      let (text, is_text, e5) = ok_or_then_ok (p.from_utf8 envelope.payload) _ _ e4 in
      let (statement, parsed, e6) = ok_or_then_ok (p.parse_statement text) _ _ e5 in
      let (_, e7) = ensure_then_ok (not (is_empty statement.subject)) _ _ e6 in
      let found : matches_sha256 statement (p.codec.hex_encode hash') ≡ true =
        ensure-eq-ok _ _ e7 in
      (
        any_sig_valid-Signs _ _ _ _ valid,
        eq_of_bytes_eq _ _ in_toto,
        (
          hash,
          text,
          statement,
          hashed,
          is_text,
          parsed,
          any_sha256-HasSubject statement.subject (p.codec.hex_encode hash) (
              rw (sha256_try_from_slice-eq-ok hash hash' (or_verification-eq-ok _ checked)).0 at
                found),
        ),
      )

  pub check_message_digest-DigestMatches :
      (declared : Option MessageDigest) (artifact : Artifact)
      → check_message_digest p declared artifact ≡ ok tt
      → DigestMatches declared artifact
  unfolding check_message_digest
  check_message_digest-DigestMatches none artifact e = tt
  check_message_digest-DigestMatches (some declared) artifact e =
      let (hash, hashed, e1) =
        >>=-eq-ok (compute_artifact_digest_algo p artifact declared.algorithm) _ e in
      hashed ∙ ap ok (sym (eq_of_bytes_eq declared.digest hash (ensure-eq-ok _ _ e1)))

  pub verify_content-ContentSigned :
      (info : CertificateInfo) (content : SignatureContent) (artifact : Artifact)
      → verify_content p info content artifact ≡ ok tt
      → ContentSigned info content artifact
  unfolding verify_content verify_message_signature_crypto
  verify_content-ContentSigned info (dsse_envelope envelope) artifact e =
      verify_envelope-EnvelopeSigned _ _ envelope artifact e
  verify_content-ContentSigned info (message_signature m) artifact e =
      let (_, matches, e1) = >>=-eq-ok (check_message_digest p m.message_digest artifact) _ e in
      let (scheme, resolved, e2) = >>=-eq-ok (signature_scheme p info m.message_digest) _ e1 in
      (
        check_message_digest-DigestMatches m.message_digest artifact matches,
        (
          scheme,
          resolved,
          verify_signature_over_artifact-SignsArtifact info.public_key scheme m.signature artifact
              e2,
        ),
      )
