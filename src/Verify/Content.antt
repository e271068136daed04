-- ===== src/Verify/Content.antt =====
-- crates/sigstore-verify/src/verify.rs: the signature over the artifact and what binds it.
use sigstore_rust.Common.{
  List, [], ◌∷◌, Bool, true, false, Bytes, str, Option, none, some, if◌then◌else◌, bytes_eq, ◌==◌,
  length, is_empty, not,
}
use sigstore_rust.Common.Fallible
use sigstore_rust.Common.Fallible.{ok, err, ◌>>=◌, ◌>>◌, ensure, ok_or}
use sigstore_rust.Types.Artifact.{
  Artifact, raw_bytes, digest, HashAlgorithm, sha2_256, sha2_384, sha2_512, digest_size,
}
use sigstore_rust.Types.Encoding.{sha256_try_from_slice}
use sigstore_rust.Types.Dsse.{DsseEnvelope, DsseSignature, pae, matches_sha256}
use sigstore_rust.Types.Bundle.{
  SignatureContent, message_signature, dsse_envelope, MessageSignature, MessageDigest,
}
use sigstore_rust.Tuf.Key.{SigningScheme}
use sigstore_rust.Crypto.Signing.{
  supports_prehashed, default_signing_scheme, resolve_signing_scheme,
}
use sigstore_rust.Crypto.Verification.{verify_signature, verify_signature_prehashed}
use sigstore_rust.Crypto.X509.{CertificateInfo}
use sigstore_rust.Verify.Platform.{Platform, Result, verification, or_verification, or_crypto}
use sigstore_rust.Verify.Hashedrekord.{guard}

module _ (p : Platform) where
  unfoldable pub compute_artifact_digest_algo : Artifact → HashAlgorithm → Result Bytes
  unfolding digest_size
  compute_artifact_digest_algo (raw_bytes bytes) sha2_256 = ok (p.keys.sha256 bytes)
  compute_artifact_digest_algo (raw_bytes bytes) sha2_384 = ok (p.sha384 bytes)
  compute_artifact_digest_algo (raw_bytes bytes) sha2_512 = ok (p.keys.sha512 bytes)
  compute_artifact_digest_algo (digest hash) algo =
      if length hash == digest_size algo then ok hash else err verification

  unfoldable pub verify_dsse_artifact_binding : DsseEnvelope → Artifact → Result (Unit {0})
  unfolding compute_artifact_digest_algo sha256_try_from_slice matches_sha256
  verify_dsse_artifact_binding envelope artifact = do
    guard (bytes_eq envelope.payload_type (str "application/vnd.in-toto+json"))
    artifact_hash ← compute_artifact_digest_algo artifact sha2_256
    hash ← or_verification (sha256_try_from_slice artifact_hash)
    payload_str ← ok_or (p.from_utf8 envelope.payload) verification
    statement ← ok_or (p.parse_statement payload_str) verification
    guard (not (is_empty statement.subject))
    guard (matches_sha256 statement (p.codec.hex_encode hash))

  unfoldable pub verify_signature_over_artifact :
      Bytes → SigningScheme → Bytes → Artifact → Result (Unit {0})
  unfolding verify_signature verify_signature_prehashed supports_prehashed
  verify_signature_over_artifact public_key scheme signature (raw_bytes bytes) =
      or_verification (verify_signature p.keys public_key bytes signature scheme)
  verify_signature_over_artifact public_key scheme signature (digest hash) = do
    guard (supports_prehashed scheme)
    or_verification (verify_signature_prehashed p.keys p.prehashed public_key hash signature scheme)

  unfoldable pub signature_scheme : CertificateInfo → Option MessageDigest → Result SigningScheme
  unfolding default_signing_scheme resolve_signing_scheme
  signature_scheme cert_info none = ok (default_signing_scheme cert_info.key_algorithm)
  signature_scheme cert_info (some declared) =
      or_crypto (resolve_signing_scheme cert_info.key_algorithm declared.algorithm)

  unfoldable pub verify_message_signature_crypto :
      CertificateInfo → MessageSignature → Artifact → Result (Unit {0})
  unfolding signature_scheme verify_signature_over_artifact
  verify_message_signature_crypto cert_info msg_sig artifact = do
    scheme ← signature_scheme cert_info msg_sig.message_digest
    verify_signature_over_artifact cert_info.public_key scheme msg_sig.signature artifact

  unfoldable pub check_message_digest : Option MessageDigest → Artifact → Result (Unit {0})
  unfolding compute_artifact_digest_algo
  check_message_digest none artifact = ok tt
  check_message_digest (some message_digest) artifact = do
    artifact_hash ← compute_artifact_digest_algo artifact message_digest.algorithm
    guard (bytes_eq message_digest.digest artifact_hash)

  abbrev is_ok : {E : Type 0} → Fallible.Result E (Unit {0}) → Bool
  is_ok (ok done) = true
  is_ok (err e) = false

  -- Whether a signature of an envelope is valid.
  unfoldable pub any_sig_valid : Bytes → Bytes → SigningScheme → List DsseSignature → Bool
  unfolding verify_signature
  any_sig_valid public_key message scheme [] = false
  any_sig_valid public_key message scheme (s ∷ rest) =
      let others = any_sig_valid public_key message scheme rest in
      if is_ok (verify_signature p.keys public_key message s.sig scheme) then true else others

  unfoldable pub verify_envelope :
      Bytes → SigningScheme → DsseEnvelope → Artifact → Result (Unit {0})
  unfolding any_sig_valid verify_dsse_artifact_binding pae
  verify_envelope key scheme envelope artifact = do
    guard
        (any_sig_valid key (pae envelope.payload_type envelope.payload) scheme envelope.signatures)
    verify_dsse_artifact_binding envelope artifact

  -- Step 7.
  unfoldable pub verify_content : CertificateInfo → SignatureContent → Artifact → Result (Unit {0})
  unfolding default_signing_scheme verify_envelope check_message_digest
      verify_message_signature_crypto
  verify_content cert_info (dsse_envelope envelope) artifact =
      verify_envelope cert_info.public_key (default_signing_scheme cert_info.key_algorithm) envelope
        artifact
  verify_content cert_info (message_signature msg_sig) artifact = do
    check_message_digest msg_sig.message_digest artifact
    verify_message_signature_crypto cert_info msg_sig artifact

  unfoldable pub verify_content_with_key :
      Bytes → SigningScheme → SignatureContent → Artifact → Result (Unit {0})
  unfolding check_message_digest verify_signature_over_artifact verify_envelope
  verify_content_with_key public_key scheme (message_signature msg_sig) artifact = do
    check_message_digest msg_sig.message_digest artifact
    verify_signature_over_artifact public_key scheme msg_sig.signature artifact
  verify_content_with_key public_key scheme (dsse_envelope envelope) artifact =
      verify_envelope public_key scheme envelope artifact
