-- ===== src/Verify/Chain.antt =====
-- crates/sigstore-verify/src/verify_impl/helpers.rs: the certificate's chain and its issuer.
use sigstore_rust.Common.{
  List, [], ◌∷◌, true, false, Bytes, Option, none, some, bytes_eq, not, is_empty,
}
use sigstore_rust.Common.Fallible.{ok, err, ◌>>=◌, ◌>>◌, ensure, ok_or}
use sigstore_rust.Common.Int.{ℤ, as_u64}
use sigstore_rust.Types.Bundle.{
  VerificationMaterialContent, certificate, x509_certificate_chain, public_key,
}
use sigstore_rust.TrustRoot.{TrustedRoot, Timestamp}
use sigstore_rust.TrustRoot.Keys.{fulcio_certs}
use sigstore_rust.Verify.Platform.{Platform, Result, verification, or_verification}
use sigstore_rust.Verify.Helpers.{extract_certificate}

-- The end entity and the intermediates.
unfoldable pub chain_of : VerificationMaterialContent → Result (Bytes × List Bytes)
chain_of (certificate cert) = ok (cert, [])
chain_of (x509_certificate_chain []) = err verification
chain_of (x509_certificate_chain (ee ∷ intermediates)) = ok (ee, intermediates)
chain_of (public_key hint) = err verification

module _ (p : Platform) where
  unfoldable pub trust_anchors : List Bytes → List Bytes
  trust_anchors [] = []
  trust_anchors (cert ∷ certs) =
      let anchors = trust_anchors certs in
      elim (p.anchor_from_trusted_cert cert) [ none ↦ anchors | some anchor ↦ anchor ∷ anchors ]

  unfoldable pub verify_certificate_chain :
      VerificationMaterialContent → ℤ → TrustedRoot → Timestamp → Result (Unit {0})
  unfolding chain_of fulcio_certs trust_anchors as_u64
  verify_certificate_chain verification_material validation_time trusted_root now = do
    chain ← chain_of verification_material
    certs ← or_verification (fulcio_certs p.parse_timestamp trusted_root now)
    ensure (not (is_empty certs)) verification
    ensure (not (is_empty (trust_anchors certs))) verification
    ensure (p.is_end_entity chain.0) verification
    ensure (p.verify_for_usage chain.0 (trust_anchors certs) chain.1 (as_u64 validation_time))
        verification

  -- The key of a certificate.
  unfoldable pub certificate_spki : Bytes → Result Bytes
  certificate_spki cert_der = do
    cert ← ok_or (p.certificate_from_der cert_der) verification
    ok_or cert.spki_der verification

  -- The first certificate that parses and has the issuer's name decides.
  unfoldable pub find_issuer_spki : Bytes → List Bytes → Result Bytes
  find_issuer_spki issuer_name [] = err verification
  find_issuer_spki issuer_name (ca_der ∷ rest) = elim (p.certificate_from_der ca_der) [
    | none ↦ find_issuer_spki issuer_name rest
    | some ca_cert ↦ elim (bytes_eq ca_cert.subject issuer_name) [
      | true ↦ ok_or ca_cert.spki_der verification
      | false ↦ find_issuer_spki issuer_name rest
    ]
  ]

  -- The chain's second certificate, if the bundle has one.
  abbrev chain_issuer : VerificationMaterialContent → Option Bytes
  chain_issuer (x509_certificate_chain (_ ∷ issuer ∷ _)) = some issuer
  chain_issuer _ = none

  unfoldable pub get_issuer_spki :
      VerificationMaterialContent → Bytes → TrustedRoot → Timestamp → Result Bytes
  unfolding certificate_spki fulcio_certs find_issuer_spki
  get_issuer_spki verification_material cert trusted_root now =
      elim (chain_issuer verification_material) [
        | some issuer_der ↦ certificate_spki issuer_der
        | none ↦ do
          parsed_cert ← ok_or (p.certificate_from_der cert) verification
          certs ← or_verification (fulcio_certs p.parse_timestamp trusted_root now)
          find_issuer_spki parsed_cert.issuer certs
      ]

  unfoldable pub verify_sct :
      VerificationMaterialContent → TrustedRoot → Timestamp → Result (Unit {0})
  unfolding extract_certificate get_issuer_spki
  verify_sct verification_material trusted_root now = do
    cert ← extract_certificate verification_material
    issuer_spki ← get_issuer_spki verification_material cert trusted_root now
    p.verify_sct cert issuer_spki trusted_root
