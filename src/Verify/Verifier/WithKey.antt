-- ===== src/Verify/Verifier/WithKey.antt =====
-- crates/sigstore-verify/src/verify.rs: `verify_with_key`, the verification against a key that the
-- caller gives in place of a certificate.
use sigstore_rust.Common.{List, [], ◌∷◌, true, false, Bytes, All, ◌≡◌}
use sigstore_rust.Common.Fallible.{ok, >>=-eq-ok}
use sigstore_rust.Types.Artifact.{Artifact}
use sigstore_rust.Types.Bundle.{
  Bundle, TransparencyLogEntry, SignatureContent, message_signature, dsse_envelope,
}
use sigstore_rust.TrustRoot.{TrustedRoot, Timestamp}
use sigstore_rust.Tuf.Key.{SigningScheme}
use sigstore_rust.Crypto.Checkpoint.{detect_key_type}
use sigstore_rust.Validation.{validate_bundle_with_options}
use sigstore_rust.Verify.Platform.{Platform, or_verification}
use sigstore_rust.Verify.Tlog.{verify_entry_inclusion}
use sigstore_rust.Verify.Content.{check_message_digest, verify_content_with_key}
use sigstore_rust.Verify.Verifier.{VerificationResult, key_scheme, all_included, verify_with_key}
use sigstore_rust.Verify.Verifier.Artifacts.{
  DigestMatches, SignsArtifact, EnvelopeSigned, check_message_digest-DigestMatches,
  verify_signature_over_artifact-SignsArtifact, verify_envelope-EnvelopeSigned,
}

module _ (p : Platform) where
  -- The key signs the artifact, in the way of the bundle's content.
  abbrev pub KeySigned : Bytes → SigningScheme → SignatureContent → Artifact → Type 0
  KeySigned public_key scheme (message_signature m) artifact =
      DigestMatches p m.message_digest artifact
      × SignsArtifact p public_key scheme m.signature artifact
  KeySigned public_key scheme (dsse_envelope e) artifact =
      EnvelopeSigned p public_key scheme e artifact

  abbrev pub Included : TrustedRoot → Timestamp → TransparencyLogEntry → Type 0
  Included root now entry = verify_entry_inclusion p entry root now ≡ ok tt

  verify_content_with_key-KeySigned :
      (public_key : Bytes) (scheme : SigningScheme) (content : SignatureContent)
      (artifact : Artifact)
      → verify_content_with_key p public_key scheme content artifact ≡ ok tt
      → KeySigned public_key scheme content artifact
  unfolding verify_content_with_key
  verify_content_with_key-KeySigned public_key scheme (dsse_envelope envelope) artifact e =
      verify_envelope-EnvelopeSigned p public_key scheme envelope artifact e
  verify_content_with_key-KeySigned public_key scheme (message_signature m) artifact e =
      let (_, matches, e1) = >>=-eq-ok (check_message_digest p m.message_digest artifact) _ e in
      (
        check_message_digest-DigestMatches p m.message_digest artifact matches,
        verify_signature_over_artifact-SignsArtifact p public_key scheme m.signature artifact e1,
      )

  all_included-Included :
      (root : TrustedRoot) (now : Timestamp) (entries : List TransparencyLogEntry)
      → all_included p root now entries ≡ ok tt
      → All (Included root now) entries
  unfolding all_included
  all_included-Included root now [] e = tt
  all_included-Included root now (entry ∷ rest) e =
      let (_, first, e1) = >>=-eq-ok (verify_entry_inclusion p entry root now) _ e in
      (first, all_included-Included root now rest e1)

  -- When `verify_with_key` accepts a bundle, the key given has a type with a scheme and signs the
  -- artifact with it: for a message signature, over the artifact's bytes or digest, a declared digest
  -- being the artifact's; for an envelope, over the encoding of a payload whose in-toto statement has
  -- the artifact's SHA-256 digest as a subject. Every entry passes `verify_entry_inclusion`.
  pub verify_with_key_signs :
      (root : TrustedRoot) (now : Timestamp) (artifact : Artifact) (bundle : Bundle)
      (public_key : Bytes) (r : VerificationResult)
      → verify_with_key p root now artifact bundle public_key ≡ ok r
      → (scheme : SigningScheme) × (key_scheme p (detect_key_type p.keys p.spki_oid public_key)
          ≡ ok scheme)
        × KeySigned public_key scheme bundle.content artifact
        × All (Included root now) bundle.verification_material.tlog_entries
  unfolding verify_with_key
  verify_with_key_signs root now artifact bundle public_key r e =
      let (_, _, e1) =
        >>=-eq-ok
          (or_verification (
            validate_bundle_with_options p.codec bundle
              (record { require_inclusion_proof = true; require_timestamp = false })))
          _ e in
      let (scheme, known, e2) = >>=-eq-ok _ _ e1 in
      let (_, included, e3) = >>=-eq-ok _ _ e2 in
      let (_, content, _) = >>=-eq-ok _ _ e3 in
      (
        scheme,
        known,
        verify_content_with_key-KeySigned public_key scheme bundle.content artifact content,
        all_included-Included root now _ included,
      )
