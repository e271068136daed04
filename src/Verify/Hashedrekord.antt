-- ===== src/Verify/Hashedrekord.antt =====
-- crates/sigstore-verify/src/verify_impl/hashedrekord.rs: a hashedrekord entry against the bundle.
use sigstore_rust.Common.{
  List, [], ◌∷◌, Bool, true, false, ◌&&◌, ◌||◌, Bytes, str, Option, none, some, bytes_eq, not, ◌==◌,
}
use sigstore_rust.Common.Fallible.{ok, err, ◌>>=◌, ◌>>◌, ensure, ok_or}
use sigstore_rust.Common.Int.{ℤ, pos, negsuc, as_i64, ltb_ℤ}
use sigstore_rust.Types.Artifact.{Artifact, raw_bytes, digest}
use sigstore_rust.Types.Encoding.{Sha256Hash, sha256_try_from_slice, sha256_from_hex}
use sigstore_rust.Types.Dsse.{DsseSignature, envelope_pae}
use sigstore_rust.Types.Bundle.{
  Bundle, TransparencyLogEntry, SignatureContent, message_signature, dsse_envelope,
  content_certificate,
}
use sigstore_rust.Rekor.Body.{
  RekorEntryBody, hashed_rekord_v001, hashed_rekord_v002, to_certificate, from_base64_json,
}
use sigstore_rust.Verify.Platform.{Platform, Result, verification, or_verification}

abbrev pub guard : Bool → Result (Unit {0})
guard test = ensure test verification

abbrev first_sig : List DsseSignature → Option Bytes
first_sig [] = none
first_sig (s ∷ _) = some s.sig

-- The signature that an entry's is compared with, none for an envelope without signatures.
unfoldable pub content_signature : SignatureContent → Option Bytes
content_signature (message_signature sig) = some sig.signature
content_signature (dsse_envelope envelope) = first_sig envelope.signatures

module _ (p : Platform) where
  unfoldable pub entry_body : TransparencyLogEntry → Result RekorEntryBody
  unfolding from_base64_json
  entry_body entry = or_verification (
      from_base64_json p.bodies p.codec (p.codec.base64_encode entry.canonicalized_body)
        entry.kind_version.kind entry.kind_version.version)

  unfoldable pub compute_artifact_digest : Artifact → Result Sha256Hash
  unfolding sha256_try_from_slice
  compute_artifact_digest (raw_bytes bytes) = ok (p.keys.sha256 bytes)
  compute_artifact_digest (digest hash) = or_verification (sha256_try_from_slice hash)

  -- The hash that the entry must have.
  unfoldable pub signed_hash : SignatureContent → Artifact → Result Sha256Hash
  unfolding compute_artifact_digest envelope_pae
  signed_hash (message_signature sig) artifact = compute_artifact_digest artifact
  signed_hash (dsse_envelope envelope) artifact = ok (p.keys.sha256 (envelope_pae envelope))

  -- The hash that it has.
  unfoldable pub rekord_hash : RekorEntryBody → Result Sha256Hash
  unfolding sha256_from_hex sha256_try_from_slice
  rekord_hash (hashed_rekord_v001 rekord) =
      or_verification (sha256_from_hex p.codec rekord.hash_value)
  rekord_hash (hashed_rekord_v002 rekord) =
      or_verification (sha256_try_from_slice rekord.data_digest)
  rekord_hash _ = err verification

  unfoldable pub validate_artifact_hash : Sha256Hash → Sha256Hash → Result (Unit {0})
  validate_artifact_hash artifact_hash expected_hash = guard (bytes_eq artifact_hash expected_hash)

  unfoldable pub rekord_certificate : RekorEntryBody → Result (Option Bytes)
  unfolding to_certificate
  rekord_certificate (hashed_rekord_v001 rekord) = do
    cert ← or_verification (to_certificate p.bodies rekord.public_key_content)
    ok (some cert)
  rekord_certificate (hashed_rekord_v002 rekord) = ok rekord.x509_certificate
  rekord_certificate _ = ok none

  abbrev same_certificate : Bytes → Option Bytes → Result (Unit {0})
  same_certificate bundle_cert none = ok tt
  same_certificate bundle_cert (some rekor_cert) = guard (bytes_eq bundle_cert rekor_cert)

  unfoldable pub validate_certificate_match : RekorEntryBody → Bundle → Result (Unit {0})
  unfolding content_certificate rekord_certificate
  validate_certificate_match body bundle =
      elim (content_certificate bundle.verification_material.content) [
        | none ↦ ok tt
        | some bundle_cert ↦
            (rekord_certificate body >>= λ rekor_cert. same_certificate bundle_cert rekor_cert)
      ]

  unfoldable pub rekord_signature : RekorEntryBody → Option Bytes
  rekord_signature (hashed_rekord_v001 rekord) = some rekord.signature_content
  rekord_signature (hashed_rekord_v002 rekord) = some rekord.signature_content
  rekord_signature _ = none

  unfoldable pub same_signature : SignatureContent → Bytes → Result (Unit {0})
  unfolding content_signature
  same_signature content rekor_sig = elim (content_signature content) [
    | none ↦ err verification
    | some bundle_sig ↦ guard (bytes_eq bundle_sig rekor_sig)
  ]

  unfoldable pub validate_signature_match : RekorEntryBody → Bundle → Result (Unit {0})
  unfolding rekord_signature same_signature
  validate_signature_match body bundle = elim (rekord_signature body) [
    | none ↦ ok tt
    | some rekor_sig ↦ same_signature bundle.content rekor_sig
  ]

  abbrev is_zero : ℤ → Bool
  is_zero (pos n) = n == 0
  is_zero (negsuc n) = false

  unfoldable pub within_validity : ℤ → Bytes → Result (Unit {0})
  within_validity integrated_time cert_der = do
    cert ← ok_or (p.certificate_from_der cert_der) verification
    guard (
        not (
          ltb_ℤ integrated_time (as_i64 cert.not_before)
          || ltb_ℤ (as_i64 cert.not_after) integrated_time))

  unfoldable pub validate_integrated_time : TransparencyLogEntry → Bundle → Result (Unit {0})
  unfolding content_certificate within_validity
  validate_integrated_time entry bundle =
      elim (content_certificate bundle.verification_material.content) [
        | none ↦ ok tt
        | some bundle_cert ↦
            elim (bytes_eq entry.kind_version.version (str "0.0.1")
              && not (is_zero entry.integrated_time)) [
                | true ↦ within_validity entry.integrated_time bundle_cert
                | false ↦ ok tt
              ]
      ]

  unfoldable pub verify_hashedrekord_entry :
      TransparencyLogEntry → Bundle → Artifact → Result (Unit {0})
  unfolding entry_body signed_hash rekord_hash validate_artifact_hash validate_certificate_match
      validate_signature_match validate_integrated_time
  verify_hashedrekord_entry entry bundle artifact = do
    body ← entry_body entry
    hash ← signed_hash bundle.content artifact
    expected ← rekord_hash body
    validate_artifact_hash hash expected
    validate_certificate_match body bundle
    validate_signature_match body bundle
    validate_integrated_time entry bundle
