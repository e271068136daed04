-- ===== src/Verify/Verifier/Accepted.antt =====
-- crates/sigstore-verify/src/verify.rs: what the steps of an accepted bundle have established.
use sigstore_rust.Common.{false, Bytes, ◌≡◌, ap, ◌∙◌}
use sigstore_rust.Common.Fallible.{ok, >>=-eq-ok, ok_inj}
use sigstore_rust.Types.Artifact.{Artifact}
use sigstore_rust.Types.Bundle.{Bundle}
use sigstore_rust.TrustRoot.{TrustedRoot, Timestamp}
use sigstore_rust.Crypto.X509.{CertificateInfo, parse_certificate_info}
use sigstore_rust.Validation.{validate_bundle_with_options}
use sigstore_rust.Verify.Platform.{Platform, Result, or_verification, or_verification-eq-ok}
use sigstore_rust.Verify.Helpers.{extract_certificate}
use sigstore_rust.Verify.Content.{verify_content}
use sigstore_rust.Verify.Verifier.{
  VerificationPolicy, VerificationResult, check_expected, verify_signer, verify_log,
  verify_consistency, verify,
}

module _ (p : Platform) where
  abbrev structure : Bundle → VerificationPolicy → Result (Unit {0})
  structure bundle policy = or_verification (
      validate_bundle_with_options p.codec bundle
        (record { require_inclusion_proof = policy.verify_tlog; require_timestamp = false }))

  pub verify_ok :
      (root : TrustedRoot) (now : Timestamp) (artifact : Artifact) (bundle : Bundle)
      (policy : VerificationPolicy) (r : VerificationResult)
      → verify p root now artifact bundle policy ≡ ok r
      → (cert : Bytes) × (info : CertificateInfo) × (extract_certificate
            bundle.verification_material.content
          ≡ ok cert)
        × (parse_certificate_info p.utf8_string p.from_utf8 p.certificate_from_der cert ≡ ok info)
        × (verify_signer p bundle policy info root now ≡ ok tt)
        × (check_expected policy.identity info.identity ≡ ok tt)
        × (check_expected policy.issuer info.issuer ≡ ok tt)
        × (verify_log p bundle policy info root now ≡ ok r.integrated_time)
        × (verify_content p info bundle.content artifact ≡ ok tt)
        × (verify_consistency p bundle policy artifact ≡ ok tt)
  unfolding verify
  verify_ok root now artifact bundle policy r e =
      let (_, _, e1) = >>=-eq-ok (structure bundle policy) _ e in
      let (cert, extracted, e2) = >>=-eq-ok _ _ e1 in
      let (info, parsed, e3) = >>=-eq-ok _ _ e2 in
      let (_, signer, e4) = >>=-eq-ok _ _ e3 in
      let (_, identity, e5) = >>=-eq-ok _ _ e4 in
      let (_, issuer, e6) = >>=-eq-ok _ _ e5 in
      let (time, log, e7) = >>=-eq-ok _ _ e6 in
      let (_, content, e8) = >>=-eq-ok _ _ e7 in
      let (_, consistent, e9) = >>=-eq-ok _ _ e8 in
      (
        cert,
        info,
        extracted,
        or_verification-eq-ok _ parsed,
        signer,
        identity,
        issuer,
        log ∙ ap (λ (v : VerificationResult). ok v.integrated_time) (ok_inj e9),
        content,
        consistent,
      )
