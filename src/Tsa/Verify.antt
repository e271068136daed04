-- ===== src/Tsa/Verify.antt =====
-- crates/sigstore-tsa/src/verify.rs.
use sigstore_rust.Common.{
  List, [], ◌∷◌, ◌++◌, Bool, true, false, ◌&&◌, ◌||◌, Option, none, some, Bytes, Str, bytes_eq,
  if◌then◌else◌, not, is_empty, ◌==◌,
}
use sigstore_rust.Common.Int.{pos, ltb_ℤ, as_u64}
use sigstore_rust.Common.Fallible.{ok, err, ◌>>=◌, ◌>>◌, ensure, ok_or}
use sigstore_rust.Types.Bundle.{first}
use sigstore_rust.TrustRoot.{Timestamp}
use sigstore_rust.Verify.Platform.{TsaVerifyOpts}
use sigstore_rust.Tsa.{
  Result, parse_error, signature_verification_error, hash_mismatch, no_tst_info,
  certificate_validation_error, oid_sha256, oid_sha384, oid_sha512, oid_tst_info, oid_signed_data,
  oid_message_digest, oid_ec_public_key, oid_secp256r1, oid_secp384r1, oid_subject_key_identifier,
  granted, granted_with_mods, TimeStampResp, TstInfo, ContentInfo, Certificate, CertificateChoices,
  certificate, other, SignerIdentifier, issuer_and_serial_number, subject_key_identifier, Attribute,
  SignedData, EcdsaAlgorithm, ecdsa_p256_sha256_asn1, ecdsa_p384_sha256_asn1,
  ecdsa_p384_sha384_asn1, Tsp,
}

module _ (c : Tsp) where
  unfoldable pub token_of_response : TimeStampResp → Result ContentInfo
  token_of_response resp = do
    ensure (resp.status == granted || resp.status == granted_with_mods) parse_error
    token ← ok_or resp.time_stamp_token parse_error
    bytes ← ok_or token parse_error
    ok_or (c.content_info_from_der bytes) parse_error

  -- A response, or the token by itself.
  unfoldable pub content_info_of : Bytes → Result ContentInfo
  unfolding token_of_response
  content_info_of token = elim (c.time_stamp_resp_from_der token) [
    | some resp ↦ token_of_response resp
    | none ↦ ok_or (c.content_info_from_der token) parse_error
  ]

  unfoldable pub parse_timestamp_token : Bytes → Result (TstInfo × SignedData)
  unfolding content_info_of
  parse_timestamp_token token = do
    content_info ← content_info_of token
    ensure (bytes_eq content_info.content_type oid_signed_data) parse_error
    signed_data_der ← ok_or content_info.content parse_error
    signed_data ← ok_or (c.signed_data_from_der signed_data_der) parse_error
    ensure (bytes_eq signed_data.econtent_type oid_tst_info) parse_error
    content ← ok_or signed_data.econtent no_tst_info
    tst_info ← ok_or (c.tst_info_from_der content) parse_error
    ok (tst_info, signed_data)

  -- The digest by the algorithm of an object identifier.
  unfoldable pub digest_by : Str → Bytes → Result Bytes
  digest_by oid message =
      if bytes_eq oid oid_sha256
      then ok (c.sha256 message)
      else if bytes_eq oid oid_sha384
      then ok (c.sha384 message)
      else if bytes_eq oid oid_sha512
      then ok (c.sha512 message)
      else err parse_error

  unfoldable pub verify_message_imprint : TstInfo → Bytes → Result (Unit {0})
  unfolding digest_by
  verify_message_imprint tst_info signature_bytes = do
    computed_hash ← digest_by tst_info.message_imprint.hash_algorithm signature_bytes
    ensure (bytes_eq computed_hash tst_info.message_imprint.hashed_message) hash_mismatch

  abbrev certificates_of : List CertificateChoices → List Certificate
  certificates_of [] = []
  certificates_of (certificate cert ∷ rest) = cert ∷ certificates_of rest
  certificates_of (other ∷ rest) = certificates_of rest

  unfoldable pub extract_certificates : SignedData → List Certificate
  extract_certificates signed_data = elim signed_data.certificates [
    | none ↦ []
    | some cert_set ↦ certificates_of cert_set
  ]

  abbrev decoded : Option Certificate → List Certificate → List Certificate
  decoded none rest = rest
  decoded (some cert) rest = cert ∷ rest

  -- The TSA certificates of the options that decode.
  unfoldable pub provided_certificates : List Bytes → List Certificate
  provided_certificates [] = []
  provided_certificates (cert ∷ rest) =
      decoded (c.certificate_from_der cert) (provided_certificates rest)

  abbrev ski_is : Option Bytes → Bytes → Bool
  ski_is none ski = false
  ski_is (some cert_ski) ski = bytes_eq cert_ski ski

  unfoldable pub any_ski : List (Str × Bytes) → Bytes → Bool
  any_ski [] ski = false
  any_ski ((extn_id, extn_value) ∷ rest) ski =
      (bytes_eq extn_id oid_subject_key_identifier
        && ski_is (c.subject_key_identifier_from_der extn_value) ski)
      || any_ski rest ski

  abbrev extensions_match : Option (List (Str × Bytes)) → Bytes → Bool
  extensions_match none ski = false
  extensions_match (some extensions) ski = any_ski extensions ski

  -- The tests of the two loops of `find_signer_certificate`.
  unfoldable pub identifies : SignerIdentifier → Certificate → Bool
  unfolding any_ski
  identifies (issuer_and_serial_number issuer serial_number) cert =
      bytes_eq cert.issuer issuer && bytes_eq cert.serial_number serial_number
  identifies (subject_key_identifier ski) cert = extensions_match cert.extensions ski

  unfoldable pub find_signer_certificate : SignerIdentifier → List Certificate → Result Certificate
  unfolding identifies
  find_signer_certificate signer_id [] = err signature_verification_error
  find_signer_certificate signer_id (cert ∷ rest) =
      let later = find_signer_certificate signer_id rest in
      if identifies signer_id cert then ok cert else later

  unfoldable pub find_attribute : Str → List Attribute → Option Attribute
  find_attribute oid [] = none
  find_attribute oid (attr ∷ rest) =
      if bytes_eq attr.oid oid then some attr else find_attribute oid rest

  -- Exactly one value.
  abbrev only_value : List (Option Bytes) → Result (Option Bytes)
  only_value [] = err signature_verification_error
  only_value (value ∷ []) = ok value
  only_value (value ∷ another ∷ rest) = err signature_verification_error

  unfoldable pub message_digest_of : List Attribute → Result Bytes
  unfolding find_attribute
  message_digest_of signed_attrs = do
    attr ← ok_or (find_attribute oid_message_digest signed_attrs) signature_verification_error
    value ← only_value attr.values
    value_der ← ok_or value signature_verification_error
    ok_or (c.octet_string_from_der value_der) signature_verification_error

  unfoldable pub verify_message_digest_attribute : List Attribute → Bytes → Str → Result (Unit {0})
  unfolding message_digest_of digest_by
  verify_message_digest_attribute signed_attrs tst_info_der digest_alg_oid = do
    message_digest ← message_digest_of signed_attrs
    content_hash ← digest_by digest_alg_oid tst_info_der
    ensure (bytes_eq content_hash message_digest) hash_mismatch

  unfoldable pub ecdsa_algorithm : (curve_oid digest_alg_oid : Str) → Result EcdsaAlgorithm
  ecdsa_algorithm curve_oid digest_alg_oid =
      if bytes_eq curve_oid oid_secp256r1 && bytes_eq digest_alg_oid oid_sha256
      then ok ecdsa_p256_sha256_asn1
      else if bytes_eq curve_oid oid_secp384r1 && bytes_eq digest_alg_oid oid_sha256
      then ok ecdsa_p384_sha256_asn1
      else if bytes_eq curve_oid oid_secp384r1 && bytes_eq digest_alg_oid oid_sha384
      then ok ecdsa_p384_sha384_asn1
      else err signature_verification_error

  unfoldable pub verify_ecdsa_signature : Bytes → Bytes → Certificate → Str → Result (Unit {0})
  unfolding ecdsa_algorithm
  verify_ecdsa_signature signature message cert digest_alg_oid = do
    public_key_bytes ← ok_or cert.subject_public_key signature_verification_error
    ensure (bytes_eq cert.spki_oid oid_ec_public_key) signature_verification_error
    params ← ok_or cert.spki_curve signature_verification_error
    curve_oid ← ok_or params signature_verification_error
    algorithm ← ecdsa_algorithm curve_oid digest_alg_oid
    ensure (c.verify_ecdsa algorithm public_key_bytes message signature)
        signature_verification_error

  unfoldable pub verify_cms_signature : SignedData → Bytes → TsaVerifyOpts → Result Certificate
  unfolding extract_certificates provided_certificates find_signer_certificate
      verify_message_digest_attribute verify_ecdsa_signature
  verify_cms_signature signed_data tst_info_der opts = do
    signer_info ← ok_or (first signed_data.signer_infos) signature_verification_error
    signer_cert ←
        find_signer_certificate signer_info.sid
          (extract_certificates signed_data ++ provided_certificates opts.tsa_certificates)
    signed_attrs ← ok_or signer_info.signed_attrs signature_verification_error
    verify_message_digest_attribute signed_attrs tst_info_der signer_info.digest_alg
    signed_attrs_bytes ← ok_or (c.attributes_to_der signed_attrs) signature_verification_error
    verify_ecdsa_signature signer_info.signature signed_attrs_bytes signer_cert
        signer_info.digest_alg
    ok signer_cert

  unfoldable pub trust_anchors : List Bytes → Result (List Bytes)
  trust_anchors [] = ok []
  trust_anchors (cert ∷ rest) = do
    anchor ← ok_or (c.anchor_from_trusted_cert cert) certificate_validation_error
    anchors ← trust_anchors rest
    ok (anchor ∷ anchors)

  -- The embedded certificates but the signer's.
  unfoldable pub embedded_intermediates : Certificate → List Certificate → Result (List Bytes)
  embedded_intermediates signer_cert [] = ok []
  embedded_intermediates signer_cert (cert ∷ rest) = elim (c.certificate_eq cert signer_cert) [
    | true ↦ embedded_intermediates signer_cert rest
    | false ↦
        (ok_or cert.der certificate_validation_error >>= λ der.
        embedded_intermediates signer_cert rest >>= λ ders. ok (der ∷ ders))
  ]

  unfoldable pub validate_tsa_certificate_chain :
      Certificate → Timestamp → TsaVerifyOpts → List Certificate → Result (Unit {0})
  unfolding trust_anchors embedded_intermediates as_u64
  validate_tsa_certificate_chain signer_cert timestamp opts embedded_certs = do
    ensure (not (is_empty opts.roots)) certificate_validation_error
    signer_cert_der ← ok_or signer_cert.der certificate_validation_error
    ensure (c.is_end_entity signer_cert_der) certificate_validation_error
    anchors ← trust_anchors opts.roots
    embedded ← embedded_intermediates signer_cert embedded_certs
    ensure
        (c.verify_for_usage signer_cert_der anchors (embedded ++ opts.intermediates)
          (as_u64 (c.as_second timestamp)))
        certificate_validation_error

  -- The time of the `TimestampResult`.
  unfoldable pub verify_timestamp_response : Bytes → Bytes → TsaVerifyOpts → Result Timestamp
  unfolding parse_timestamp_token verify_message_imprint verify_cms_signature
      validate_tsa_certificate_chain extract_certificates
  verify_timestamp_response token signature_bytes opts = do
    (tst_info, signed_data) ← parse_timestamp_token token
    verify_message_imprint tst_info signature_bytes
    timestamp ← ok_or tst_info.gen_time parse_error
    ensure (not (ltb_ℤ timestamp (pos 0))) parse_error
    tst_info_der ← ok_or signed_data.econtent no_tst_info
    signer_cert ← verify_cms_signature signed_data tst_info_der opts
    validate_tsa_certificate_chain signer_cert timestamp opts (extract_certificates signed_data)
    ok timestamp
