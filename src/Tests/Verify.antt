-- ===== src/Tests/Verify.antt =====
-- Runs of crates/sigstore-verify on a sample bundle.
use sigstore_rust.Common.{
  [], ◌∷◌, ◌++◌, true, false, ◌&&◌, Bytes, Str, str, some, length, All, In, not, is_empty, ◌≡◌, ◌↔◌,
  ◌<◌, ◌^◌, ◌⊎◌, refl,
}
use sigstore_rust.Common.{none}
use sigstore_rust.Tuf.Key.{SigningScheme}
use sigstore_rust.Crypto.Checkpoint.{detect_key_type}
use sigstore_rust.Verify.Verifier.{VerificationResult, verify_with_key, key_scheme}
use sigstore_rust.Verify.Verifier.WithKey.{KeySigned, Included, verify_with_key_signs}
use sigstore_rust.Types.Dsse.Encoding.{pae_inj}
use sigstore_rust.Common.Int.{ℤ, pos, as_i64, wrap_i64, ◌+ℤ◌}
use sigstore_rust.Common.Fallible.{ok}
use sigstore_rust.Merkle.Inclusion.{expected_inclusion_proof_length, inclusion_loop}
use sigstore_rust.Merkle.Inclusion.Bound.{Holds}
use sigstore_rust.Merkle.Spec.Collisions.{Collision}
use sigstore_rust.Merkle.Spec.Tree.{MerkleTree, root}
use sigstore_rust.Types.Checkpoint.{Checkpoint, from_text}
use sigstore_rust.Types.Checkpoint.Note.{SignatureShaped, from_text_ok}
use sigstore_rust.Types.Bundle.{MediaType, InclusionPromise, TransparencyLogEntry, version}
use sigstore_rust.Validation.{default_options, validate_bundle_with_options}
use sigstore_rust.Validation.Exact.{VersionShaped, EntryShaped, validate_bundle_with_options_shaped}
use sigstore_rust.TrustRoot.{CertificateAuthority, contains}
use sigstore_rust.TrustRoot.Keys.{fulcio_certs}
use sigstore_rust.TrustRoot.Lookup.{LogKey, fulcio_certs_iff}
use sigstore_rust.TrustRoot.Windows
use sigstore_rust.TrustRoot.Windows.{Started, contains_iff}
use sigstore_rust.Crypto.X509.{CertificateInfo}
use sigstore_rust.Crypto.Checkpoint.{verify_signature_auto}
use sigstore_rust.Verify.Tlog.{verify_entry_inclusion, verify_set}
use sigstore_rust.Verify.Tlog.Bound.{SignedByLog, verify_entry_inclusion_binds}
use sigstore_rust.Verify.Tlog.Promise.{KeyWindow, SignedPayload, verify_set_signed}
use sigstore_rust.Verify.Tlog.Times.{Accepted}
use sigstore_rust.Verify.Helpers.{determine_validation_time, verified_timestamp, extract_signature}
use sigstore_rust.Verify.Helpers.Earliest.{
  VerifiedFrom, PromisedTime, determine_validation_time_source,
}
use sigstore_rust.Verify.Verifier.{verify}
use sigstore_rust.Verify.Verifier.Artifacts.{ContentSigned}
use sigstore_rust.Verify.Verifier.Logged.{Records, verify_entries-Accepted, verify_message_recorded}
use sigstore_rust.Verify.Verifier.Policy.{
  HasCertificate, ValidAt, verify_signs, verify_expected, verify_certificate_valid,
}
use sigstore_rust.Tests.Sample.{
  codec, platform, trusted_root, artifact, bundle, policy, result, entry, proof, note, noted,
  sha256, started, message,
}

abbrev now : ℤ
now = pos 1000

sample_verifies : verify platform trusted_root now artifact bundle policy ≡ ok result
unfolding verify as_i64 expected_inclusion_proof_length inclusion_loop wrap_i64 ◌+ℤ◌
sample_verifies = refl

verify_signs_example :
    (cert : Bytes) × (info : CertificateInfo) × HasCertificate platform bundle cert info
    × ContentSigned platform info bundle.content artifact
verify_signs_example =
    verify_signs platform trusted_root now artifact bundle policy result sample_verifies

verify_expected_example :
    (cert : Bytes) × (info : CertificateInfo) × HasCertificate platform bundle cert info
    × ((x : Str) → policy.identity ≡ some x → info.identity ≡ some x)
    × ((x : Str) → policy.issuer ≡ some x → info.issuer ≡ some x)
verify_expected_example =
    verify_expected platform trusted_root now artifact bundle policy result sample_verifies

verify_certificate_valid_example :
    (cert : Bytes) × (info : CertificateInfo) × HasCertificate platform bundle cert info
    × ((signature : Bytes) × (time : ℤ) × (extract_signature bundle.content ≡ ok signature)
        × (determine_validation_time platform bundle signature trusted_root now ≡ ok time)
        × ValidAt platform trusted_root now bundle info time)
verify_certificate_valid_example =
    verify_certificate_valid platform trusted_root now artifact bundle policy result refl
      sample_verifies

verify_entries-Accepted_example :
    (cert : Bytes) × (info : CertificateInfo) × HasCertificate platform bundle cert info
    × All
        (Accepted platform trusted_root info.not_before info.not_after policy.clock_skew_seconds
          now)
        bundle.verification_material.tlog_entries
verify_entries-Accepted_example =
    verify_entries-Accepted platform trusted_root now artifact bundle policy result refl
      sample_verifies

verify_message_recorded_example :
    All (Records platform bundle artifact) bundle.verification_material.tlog_entries
verify_message_recorded_example =
    verify_message_recorded platform trusted_root now artifact bundle policy result message refl
      refl sample_verifies

entry_included : verify_entry_inclusion platform entry trusted_root now ≡ ok tt
unfolding verify_entry_inclusion expected_inclusion_proof_length inclusion_loop as_i64
entry_included = refl

verify_entry_inclusion_binds_example :
    (checkpoint : Checkpoint) × (from_text codec note ≡ ok checkpoint)
    × SignedByLog platform trusted_root now checkpoint
    × ((t : MerkleTree)
        → root sha256 t ≡ checkpoint.root_hash
        → Holds t entry.canonicalized_body ⊎ Collision sha256)
verify_entry_inclusion_binds_example =
    verify_entry_inclusion_binds platform (λ b. refl) entry proof trusted_root now refl tt
      entry_included

set_verifies : verify_set platform entry trusted_root now ≡ ok tt
unfolding verify_set as_i64
set_verifies = refl

verify_set_signed_example :
    (promise : InclusionPromise) × (key : Bytes) × (json : Bytes) × (entry.inclusion_promise
      ≡ some promise)
    × LogKey platform.parse_timestamp
        (KeyWindow platform entry.integrated_time now)
        trusted_root.tlogs
        entry.log_id
        key
    × SignedPayload platform entry json
    × (verify_signature_auto platform.keys platform.spki_oid key promise.signed_entry_timestamp json
        ≡ ok tt)
verify_set_signed_example = verify_set_signed platform entry trusted_root now set_verifies

sample_time : determine_validation_time platform bundle (str "sig") trusted_root now ≡ ok (pos 150)
unfolding determine_validation_time
sample_time = refl

determine_validation_time_source_example :
    (((ts : Bytes) × In bundle.verification_material.rfc3161_timestamps ts
        × (verified_timestamp platform ts (str "sig") trusted_root now ≡ ok (pos 150)))
      × All
          (VerifiedFrom platform (str "sig") trusted_root now (pos 150))
          bundle.verification_material.rfc3161_timestamps)
    ⊎ ((bundle.verification_material.rfc3161_timestamps ≡ [])
        × ((e : TransparencyLogEntry) × In bundle.verification_material.tlog_entries e
            × PromisedTime platform (str "sig") trusted_root now (pos 150) e))
determine_validation_time_source_example =
    determine_validation_time_source platform (str "sig") trusted_root now bundle (pos 150)
      sample_time

sample_validates : validate_bundle_with_options codec bundle default_options ≡ ok tt
unfolding validate_bundle_with_options
sample_validates = refl

validate_bundle_with_options_shaped_example :
    ((v : MediaType) × (version bundle ≡ ok v) × VersionShaped codec v bundle default_options)
    × All (EntryShaped codec) bundle.verification_material.tlog_entries
    × ((is_empty bundle.verification_material.tlog_entries
          && is_empty bundle.verification_material.rfc3161_timestamps)
        ≡ false)
    × ((false && is_empty bundle.verification_material.rfc3161_timestamps) ≡ false)
validate_bundle_with_options_shaped_example =
    validate_bundle_with_options_shaped codec bundle default_options sample_validates

note_parses : from_text codec note ≡ ok noted
unfolding from_text
note_parses = refl

from_text_ok_example :
    ((rest : Str) × (note ≡ noted.signed_note_text ++ (10 ∷ rest)))
    × (noted.tree_size < 2 ^ 64)
    × (length noted.root_hash ≡ 32)
    × (not (is_empty noted.origin) ≡ true)
    × (not (is_empty noted.signatures) ≡ true)
    × All SignatureShaped noted.signatures
from_text_ok_example = from_text_ok codec note noted note_parses

sample_certs : fulcio_certs platform.parse_timestamp trusted_root now ≡ ok (str "fulcio" ∷ [])
unfolding fulcio_certs
sample_certs = refl

fulcio_certs_iff_example : In (str "fulcio" ∷ []) (str "fulcio") ↔ (
    (a : CertificateAuthority) × In trusted_root.certificate_authorities a
    × Started platform.parse_timestamp a.valid_for now
    × In a.cert_chain (str "fulcio"))
fulcio_certs_iff_example =
    fulcio_certs_iff platform.parse_timestamp trusted_root now (str "fulcio" ∷ []) (str "fulcio")
      sample_certs

contains_iff_example :
    (contains platform.parse_timestamp started now ≡ ok true)
    ↔ Windows.Holds platform.parse_timestamp (some started) now
contains_iff_example = contains_iff platform.parse_timestamp started now

pae_inj_example : (str "text" ≡ str "text") × (str "hi" ≡ str "hi")
pae_inj_example = pae_inj (str "text") (str "text") (str "hi") (str "hi") refl

abbrev key_result : VerificationResult
key_result = record { success = true; identity = none; issuer = none; integrated_time = none }

sample_verifies_with_key :
    verify_with_key platform trusted_root now artifact bundle (str "key") ≡ ok key_result
unfolding verify_with_key as_i64 expected_inclusion_proof_length inclusion_loop wrap_i64 ◌+ℤ◌
sample_verifies_with_key = refl

verify_with_key_signs_example :
    (scheme : SigningScheme) × (key_scheme platform
        (detect_key_type platform.keys platform.spki_oid (str "key"))
      ≡ ok scheme)
    × KeySigned platform (str "key") scheme bundle.content artifact
    × All (Included platform trusted_root now) bundle.verification_material.tlog_entries
verify_with_key_signs_example =
    verify_with_key_signs platform trusted_root now artifact bundle (str "key") key_result
      sample_verifies_with_key
