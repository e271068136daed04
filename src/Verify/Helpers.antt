-- ===== src/Verify/Helpers.antt =====
-- crates/sigstore-verify/src/verify_impl/helpers.rs: the time at which a bundle is judged.
pub mod Earliest
use sigstore_rust.Common.{
  List, [], ◌∷◌, Bool, true, false, ◌&&◌, ◌||◌, Bytes, Str, str, Option, none, some, if◌then◌else◌,
  bytes_eq, not, is_empty,
}
use sigstore_rust.Common.Fallible
use sigstore_rust.Common.Fallible.{ok, err, ◌>>=◌, ◌>>◌, ensure, ok_or}
use sigstore_rust.Common.Int.{ℤ, pos, ltb_ℤ}
use sigstore_rust.Types.Bundle.{
  Bundle, TransparencyLogEntry, VerificationMaterialContent, certificate, x509_certificate_chain,
  public_key, SignatureContent, message_signature, dsse_envelope, is_some,
}
use sigstore_rust.Types.Dsse.{DsseSignature}
use sigstore_rust.TrustRoot.{TrustedRoot, Timestamp}
use sigstore_rust.TrustRoot.Tsa.{
  tsa_root_certs, tsa_intermediate_certs, tsa_leaf_certs, is_timestamp_within_tsa_validity,
}
use sigstore_rust.Crypto.X509.{CertificateInfo}
use sigstore_rust.Verify.Platform.{
  Platform, Result, Error, verification, or_verification, TsaVerifyOpts,
}

unfoldable pub extract_certificate : VerificationMaterialContent → Result Bytes
extract_certificate (certificate cert) = ok cert
extract_certificate (x509_certificate_chain []) = err verification
extract_certificate (x509_certificate_chain (cert ∷ _)) = ok cert
extract_certificate (public_key hint) = err verification

abbrev first_signature : List DsseSignature → Result Bytes
first_signature [] = err verification
first_signature (s ∷ _) = ok s.sig

unfoldable pub extract_signature : SignatureContent → Result Bytes
extract_signature (message_signature msg_sig) = ok msg_sig.signature
extract_signature (dsse_envelope envelope) = first_signature envelope.signatures

-- The earlier of a time and the earliest until then.
unfoldable pub earlier : Option ℤ → ℤ → ℤ
earlier none time = time
earlier (some earliest) time = if ltb_ℤ time earliest then time else earliest

-- The certificates of a query, none if it fails: `if let Ok(certs)`.
abbrev certs_or_none : {E : Type 0} → Fallible.Result E (List Bytes) → List Bytes
certs_or_none (ok certs) = certs
certs_or_none (err e) = []

abbrev any_v2 : List TransparencyLogEntry → Bool
any_v2 [] = false
any_v2 (entry ∷ rest) = bytes_eq entry.kind_version.version (str "0.0.2") || any_v2 rest

unfoldable pub has_v2_tlog_entries : Bundle → Bool
has_v2_tlog_entries bundle = any_v2 bundle.verification_material.tlog_entries

unfoldable pub is_v1 : TransparencyLogEntry → Bool
is_v1 entry =
    bytes_eq entry.kind_version.version (str "0.0.1")
    && (bytes_eq entry.kind_version.kind (str "hashedrekord")
        || bytes_eq entry.kind_version.kind (str "dsse"))

unfoldable pub integrated_loop : Option ℤ → List TransparencyLogEntry → Option ℤ
unfolding is_v1 earlier
integrated_loop earliest [] = earliest
integrated_loop earliest (entry ∷ rest) =
    elim (is_v1 entry && (is_some entry.inclusion_promise && ltb_ℤ (pos 0) entry.integrated_time)) [
      | false ↦ integrated_loop earliest rest
      | true ↦ integrated_loop (some (earlier earliest entry.integrated_time)) rest
    ]

unfoldable pub extract_v1_integrated_time_with_promise : Bundle → Option ℤ
unfolding integrated_loop
extract_v1_integrated_time_with_promise bundle =
    integrated_loop none bundle.verification_material.tlog_entries

module _ (p : Platform) where
  unfoldable pub tsa_opts : TrustedRoot → Timestamp → TsaVerifyOpts
  unfolding tsa_root_certs tsa_intermediate_certs tsa_leaf_certs
  tsa_opts trusted_root now = record {
    roots = certs_or_none (tsa_root_certs p.parse_timestamp trusted_root now);
    intermediates = certs_or_none (tsa_intermediate_certs p.parse_timestamp trusted_root now);
    tsa_certificates = certs_or_none (tsa_leaf_certs p.parse_timestamp trusted_root now);
  }

  -- A timestamp's time, if it verifies and lies in the window of an authority.
  unfoldable pub verified_timestamp : Bytes → Bytes → TrustedRoot → Timestamp → Result ℤ
  unfolding tsa_opts is_timestamp_within_tsa_validity
  verified_timestamp ts_bytes signature_bytes trusted_root now = do
    time ←
        ok_or (p.verify_timestamp_response ts_bytes signature_bytes (tsa_opts trusted_root now))
          verification
    within ← or_verification (is_timestamp_within_tsa_validity p.parse_timestamp trusted_root time)
    ensure within verification
    ok (p.as_second time)

  unfoldable pub tsa_loop :
      Bytes → TrustedRoot → Timestamp → Option ℤ → List Bytes → Result (Option ℤ)
  unfolding verified_timestamp earlier
  tsa_loop signature_bytes trusted_root now earliest [] = ok earliest
  tsa_loop signature_bytes trusted_root now earliest (ts ∷ rest) = do
    timestamp ← verified_timestamp ts signature_bytes trusted_root now
    tsa_loop signature_bytes trusted_root now (some (earlier earliest timestamp)) rest

  -- Without timestamps the loop gives none; with some, it gives one or an error.
  unfoldable pub extract_tsa_timestamp :
      Bundle → Bytes → TrustedRoot → Timestamp → Result (Option ℤ)
  unfolding tsa_loop
  extract_tsa_timestamp bundle signature_bytes trusted_root now =
      tsa_loop signature_bytes trusted_root now none bundle.verification_material.rfc3161_timestamps

  -- The two errors differ in their text only.
  unfoldable pub determine_validation_time : Bundle → Bytes → TrustedRoot → Timestamp → Result ℤ
  unfolding extract_tsa_timestamp extract_v1_integrated_time_with_promise
  determine_validation_time bundle signature trusted_root now = do
    tsa_time ← extract_tsa_timestamp bundle signature trusted_root now
    elim tsa_time [
      | some time ↦ ok time
      | none ↦ ok_or (extract_v1_integrated_time_with_promise bundle) verification
    ]

unfoldable pub validate_certificate_time : ℤ → CertificateInfo → Result (Unit {0})
validate_certificate_time validation_time cert_info = do
  ensure (not (ltb_ℤ validation_time cert_info.not_before)) verification
  ensure (not (ltb_ℤ cert_info.not_after validation_time)) verification
