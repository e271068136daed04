-- ===== src/Verify/Verifier.antt =====
-- crates/sigstore-verify/src/verify.rs: `Verifier::verify`, its policy, and `verify_with_key`.
pub mod Artifacts
pub mod Policy
pub mod Accepted
pub mod Logged
pub mod WithKey
use sigstore_rust.Common.{
  List, [], ◌∷◌, Bool, true, false, Bytes, Str, str, Option, none, some, if◌then◌else◌, bytes_eq,
  ◌==◌, length, is_empty, not,
}
use sigstore_rust.Common.Fallible
use sigstore_rust.Common.Fallible.{ok, err, ◌>>=◌, ◌>>◌, ensure, ok_or}
use sigstore_rust.Common.Int.{ℤ, pos}
use sigstore_rust.Types.Artifact.{
  Artifact, raw_bytes, digest, HashAlgorithm, sha2_256, sha2_384, sha2_512, digest_size,
}
use sigstore_rust.Types.Encoding.{sha256_try_from_slice}
use sigstore_rust.Types.Dsse.{DsseEnvelope, DsseSignature, pae, matches_sha256}
use sigstore_rust.Types.Bundle.{
  Bundle, TransparencyLogEntry, SignatureContent, message_signature, dsse_envelope,
  MessageSignature, MessageDigest,
}
use sigstore_rust.Validation.{ValidationOptions, validate_bundle_with_options}
use sigstore_rust.TrustRoot.{TrustedRoot, Timestamp}
use sigstore_rust.Tuf.Key.{SigningScheme, ecdsa_p256_sha256}
use sigstore_rust.Tuf.Key
use sigstore_rust.Crypto.Signing.{
  supports_prehashed, default_signing_scheme, resolve_signing_scheme,
}
use sigstore_rust.Crypto.Verification.{verify_signature, verify_signature_prehashed}
use sigstore_rust.Crypto.Checkpoint.{KeyType, ed25519, ecdsa_p256, unknown, detect_key_type}
use sigstore_rust.Crypto.X509.{CertificateInfo, parse_certificate_info}
use sigstore_rust.Verify.Platform.{
  Platform, Result, Error, verification, or_verification, or_crypto,
}
use sigstore_rust.Verify.Helpers.{
  extract_certificate, extract_signature, determine_validation_time, validate_certificate_time,
}
use sigstore_rust.Verify.Chain.{verify_certificate_chain, verify_sct}
use sigstore_rust.Verify.Tlog.{verify_entry_inclusion, verify_tlog_entries}
use sigstore_rust.Verify.Hashedrekord.{guard}
use sigstore_rust.Verify.Consistency.{verify_tlog_consistency}
use sigstore_rust.Verify.Content.{verify_content, verify_content_with_key}

pub record VerificationPolicy : Type 0 where
  pub identity : Option Str
  pub issuer : Option Str
  pub verify_tlog : Bool
  pub verify_timestamp : Bool
  pub verify_certificate : Bool
  pub verify_sct : Bool
  pub clock_skew_seconds : ℤ

unfoldable pub default_policy : VerificationPolicy
default_policy = record {
  identity = none;
  issuer = none;
  verify_tlog = true;
  verify_timestamp = true;
  verify_certificate = true;
  verify_sct = true;
  clock_skew_seconds = pos 60;
}

-- A success; `warnings` stays empty.
pub record VerificationResult : Type 0 where
  pub success : Bool
  pub identity : Option Str
  pub issuer : Option Str
  pub integrated_time : Option ℤ

-- Whether the certificate has what the policy asks for.
unfoldable pub check_expected : Option Str → Option Str → Result (Unit {0})
check_expected none actual = ok tt
check_expected (some expected) none = err verification
check_expected (some expected) (some actual) = guard (bytes_eq actual expected)

module _ (p : Platform) where
  -- Steps 0 to 2.
  unfoldable pub verify_signer :
      Bundle → VerificationPolicy → CertificateInfo → TrustedRoot → Timestamp → Result (Unit {0})
  unfolding extract_signature determine_validation_time verify_certificate_chain
      validate_certificate_time verify_sct
  verify_signer bundle policy cert_info trusted_root now = do
    signature ← extract_signature bundle.content
    time ← determine_validation_time p bundle signature trusted_root now
    elim policy.verify_certificate [
      | false ↦ ok tt
      | true ↦
          (verify_certificate_chain p bundle.verification_material.content time trusted_root now
            >> validate_certificate_time time cert_info)
    ]
    elim policy.verify_sct [
      | false ↦ ok tt
      | true ↦ verify_sct p bundle.verification_material.content trusted_root now
    ]

  -- Steps 4 to 6: the integrated time.
  unfoldable pub verify_log :
      Bundle → VerificationPolicy → CertificateInfo → TrustedRoot → Timestamp → Result (Option ℤ)
  unfolding verify_tlog_entries
  verify_log bundle policy cert_info trusted_root now = elim policy.verify_tlog [
    | false ↦ ok none
    | true ↦
        verify_tlog_entries p bundle trusted_root cert_info.not_before cert_info.not_after
          policy.clock_skew_seconds now
  ]

  -- Step 8.
  unfoldable pub verify_consistency : Bundle → VerificationPolicy → Artifact → Result (Unit {0})
  unfolding verify_tlog_consistency
  verify_consistency bundle policy artifact = elim policy.verify_tlog [
    | false ↦ ok tt
    | true ↦ verify_tlog_consistency p bundle artifact
  ]

  abbrev certificate_info : Bytes → Result CertificateInfo
  certificate_info cert =
      or_verification (parse_certificate_info p.utf8_string p.from_utf8 p.certificate_from_der cert)

  unfoldable pub verify :
      TrustedRoot → Timestamp → Artifact → Bundle → VerificationPolicy → Result VerificationResult
  unfolding validate_bundle_with_options extract_certificate parse_certificate_info verify_signer
      check_expected verify_log verify_content verify_consistency
  verify trusted_root now artifact bundle policy = do
    or_verification (
        validate_bundle_with_options p.codec bundle
          (record { require_inclusion_proof = policy.verify_tlog; require_timestamp = false }))
    cert ← extract_certificate bundle.verification_material.content
    cert_info ← certificate_info cert
    verify_signer bundle policy cert_info trusted_root now
    check_expected policy.identity cert_info.identity
    check_expected policy.issuer cert_info.issuer
    integrated_time ← verify_log bundle policy cert_info trusted_root now
    verify_content p cert_info bundle.content artifact
    verify_consistency bundle policy artifact
    ok (record {
      success = true;
      identity = cert_info.identity;
      issuer = cert_info.issuer;
      integrated_time = integrated_time;
    })

  unfoldable pub key_scheme : KeyType → Result SigningScheme
  key_scheme ed25519 = ok Key.ed25519
  key_scheme ecdsa_p256 = ok ecdsa_p256_sha256
  key_scheme unknown = err verification

  unfoldable pub all_included :
      TrustedRoot → Timestamp → List TransparencyLogEntry → Result (Unit {0})
  unfolding verify_entry_inclusion
  all_included trusted_root now [] = ok tt
  all_included trusted_root now (entry ∷ rest) = do
    verify_entry_inclusion p entry trusted_root now
    all_included trusted_root now rest

  unfoldable pub verify_with_key :
      TrustedRoot → Timestamp → Artifact → Bundle → Bytes → Result VerificationResult
  unfolding validate_bundle_with_options key_scheme detect_key_type all_included
      verify_content_with_key verify_tlog_consistency
  verify_with_key trusted_root now artifact bundle public_key = do
    or_verification (
        validate_bundle_with_options p.codec bundle
          (record { require_inclusion_proof = true; require_timestamp = false }))
    scheme ← key_scheme (detect_key_type p.keys p.spki_oid public_key)
    all_included trusted_root now bundle.verification_material.tlog_entries
    verify_content_with_key p public_key scheme bundle.content artifact
    verify_tlog_consistency p bundle artifact
    ok (record { success = true; identity = none; issuer = none; integrated_time = none })
