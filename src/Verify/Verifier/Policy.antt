-- ===== src/Verify/Verifier/Policy.antt =====
-- crates/sigstore-verify/src/verify.rs: an accepted bundle is signed by whom the policy asks for.
use sigstore_rust.Common.{
  not-true, true, Bytes, Str, Option, none, some, List, is_empty, not, ◌≡◌, ap, ◌∙◌, eq_of_bytes_eq,
}
use sigstore_rust.Common.Int.{ℤ, ◌≤ℤ◌, ltb_ℤ, ltb_ℤ-false, as_u64}
use sigstore_rust.Common.Fallible.{ok, >>=-eq-ok, ensure-eq-ok, ensure_then_ok}
use sigstore_rust.Types.Artifact.{Artifact}
use sigstore_rust.Types.Bundle.{Bundle}
use sigstore_rust.TrustRoot.{TrustedRoot, Timestamp}
use sigstore_rust.TrustRoot.Keys.{fulcio_certs}
use sigstore_rust.Crypto.X509.{CertificateInfo, parse_certificate_info}
use sigstore_rust.Verify.Platform.{Platform, or_verification, or_verification-eq-ok}
use sigstore_rust.Verify.Helpers.{
  extract_certificate, extract_signature, determine_validation_time, validate_certificate_time,
}
use sigstore_rust.Verify.Chain.{chain_of, trust_anchors, verify_certificate_chain}
use sigstore_rust.Verify.Verifier.{
  VerificationPolicy, VerificationResult, check_expected, verify_signer, verify,
}
use sigstore_rust.Verify.Verifier.Accepted.{verify_ok}
use sigstore_rust.Verify.Verifier.Artifacts.{ContentSigned, verify_content-ContentSigned}

check_expected_ok :
    (expected actual : Option Str) (x : Str)
    → expected ≡ some x
    → check_expected expected actual ≡ ok tt
    → actual ≡ some x
unfolding check_expected
check_expected_ok none actual x wanted e = cc
check_expected_ok (some y) none x wanted e = cc
check_expected_ok (some y) (some z) x wanted e =
    ap some (eq_of_bytes_eq z y (ensure-eq-ok _ _ e)) ∙ wanted

module _ (p : Platform) where
  -- The certificate of the bundle and what is read from it.
  abbrev pub HasCertificate : Bundle → Bytes → CertificateInfo → Type 0
  HasCertificate bundle cert info =
      (extract_certificate bundle.verification_material.content ≡ ok cert)
      × (parse_certificate_info p.utf8_string p.from_utf8 p.certificate_from_der cert ≡ ok info)

  -- An accepted bundle's certificate has a key that signs the artifact: for a message signature, over
  -- the artifact's bytes or digest, with the scheme of the key and of the declared digest, which is the
  -- artifact's; for an envelope, over the encoding of a payload whose in-toto statement has the
  -- artifact's SHA-256 digest as a subject. It holds whatever the policy skips.
  pub verify_signs :
      (root : TrustedRoot) (now : Timestamp) (artifact : Artifact) (bundle : Bundle)
      (policy : VerificationPolicy) (r : VerificationResult)
      → verify p root now artifact bundle policy ≡ ok r
      → (cert : Bytes) × (info : CertificateInfo) × HasCertificate bundle cert info
        × ContentSigned p info bundle.content artifact
  verify_signs root now artifact bundle policy r e =
      let (cert, info, extracted, parsed, _, _, _, _, content, _) =
        verify_ok p root now artifact bundle policy r e in
      (
        cert,
        info,
        (extracted, parsed),
        verify_content-ContentSigned p info bundle.content artifact content,
      )

  -- The identity and the issuer that a policy requires are those of an accepted bundle's certificate.
  pub verify_expected :
      (root : TrustedRoot) (now : Timestamp) (artifact : Artifact) (bundle : Bundle)
      (policy : VerificationPolicy) (r : VerificationResult)
      → verify p root now artifact bundle policy ≡ ok r
      → (cert : Bytes) × (info : CertificateInfo) × HasCertificate bundle cert info
        × ((x : Str) → policy.identity ≡ some x → info.identity ≡ some x)
        × ((x : Str) → policy.issuer ≡ some x → info.issuer ≡ some x)
  verify_expected root now artifact bundle policy r e =
      let (cert, info, extracted, parsed, _, identity, issuer, _, _, _) =
        verify_ok p root now artifact bundle policy r e in
      (
        cert,
        info,
        (extracted, parsed),
        (λ x h. check_expected_ok _ _ x h identity),
        (λ x h. check_expected_ok _ _ x h issuer),
      )

  -- The certificate chains at `time` to an anchor of Fulcio, and `time` is in its validity.
  abbrev pub ValidAt : TrustedRoot → Timestamp → Bundle → CertificateInfo → ℤ → Type 0
  ValidAt root now bundle info time =
      (info.not_before ≤ℤ time)
      × (time ≤ℤ info.not_after)
      × ((chain : Bytes × List Bytes) × (anchors : List Bytes) × (chain_of
              bundle.verification_material.content
            ≡ ok chain)
          × (fulcio_certs p.parse_timestamp root now ≡ ok anchors)
          × (p.verify_for_usage chain.0 (trust_anchors p anchors) chain.1 (as_u64 time) ≡ true))

  validate_certificate_time_bounds :
      (time : ℤ) (info : CertificateInfo)
      → validate_certificate_time time info ≡ ok tt
      → (info.not_before ≤ℤ time) × (time ≤ℤ info.not_after)
  unfolding validate_certificate_time
  validate_certificate_time_bounds time info e =
      let (early, e1) = ensure_then_ok (not (ltb_ℤ time info.not_before)) _ _ e in
      (
        ltb_ℤ-false time info.not_before (not-true _ early),
        ltb_ℤ-false info.not_after time (not-true _ (ensure-eq-ok _ _ e1)),
      )

  verify_certificate_chain_ok :
      (root : TrustedRoot) (now : Timestamp) (bundle : Bundle) (time : ℤ)
      → verify_certificate_chain p bundle.verification_material.content time root now ≡ ok tt
      → (chain : Bytes × List Bytes) × (anchors : List Bytes) × (chain_of
            bundle.verification_material.content
          ≡ ok chain)
        × (fulcio_certs p.parse_timestamp root now ≡ ok anchors)
        × (p.verify_for_usage chain.0 (trust_anchors p anchors) chain.1 (as_u64 time) ≡ true)
  unfolding verify_certificate_chain
  verify_certificate_chain_ok root now bundle time e =
      let (chain, chained, e1) = >>=-eq-ok _ _ e in
      let (certs, anchored, e2) =
        >>=-eq-ok (or_verification (fulcio_certs p.parse_timestamp root now)) _ e1 in
      let (_, e3) = ensure_then_ok (not (is_empty certs)) _ _ e2 in
      let (_, e4) = ensure_then_ok (not (is_empty (trust_anchors p certs))) _ _ e3 in
      let (_, e5) = ensure_then_ok (p.is_end_entity chain.0) _ _ e4 in
      (chain, certs, chained, or_verification-eq-ok _ anchored, ensure-eq-ok _ _ e5)

  -- If the policy verifies the certificate, that of an accepted bundle chains to Fulcio for code
  -- signing at the time that `determine_validation_time` gives, and that time is in its validity.
  pub verify_certificate_valid :
      (root : TrustedRoot) (now : Timestamp) (artifact : Artifact) (bundle : Bundle)
      (policy : VerificationPolicy) (r : VerificationResult)
      → policy.verify_certificate ≡ true
      → verify p root now artifact bundle policy ≡ ok r
      → (cert : Bytes) × (info : CertificateInfo) × HasCertificate bundle cert info
        × ((signature : Bytes) × (time : ℤ) × (extract_signature bundle.content ≡ ok signature)
            × (determine_validation_time p bundle signature root now ≡ ok time)
            × ValidAt root now bundle info time)
  unfolding verify_signer
  verify_certificate_valid root now artifact bundle policy r on e =
      let (cert, info, extracted, parsed, signer, _, _, _, _, _) =
        verify_ok p root now artifact bundle policy r e in
      let (signature, signed, e1) = >>=-eq-ok (extract_signature bundle.content) _ signer in
      let (time, timed, e2) =
        >>=-eq-ok (determine_validation_time p bundle signature root now) _ e1 in
      let (_, judged, _) = >>=-eq-ok _ _ (rw on at e2) in
      let (_, chained, valid) = >>=-eq-ok _ _ judged in
      let (after, until) = validate_certificate_time_bounds time info valid in
      (
        cert,
        info,
        (extracted, parsed),
        (
          signature,
          time,
          signed,
          timed,
          (after, until, verify_certificate_chain_ok root now bundle time chained),
        ),
      )
