-- ===== src/Sign/Accepted.antt =====
-- crates/sigstore-sign with crates/sigstore-verify: the verifier's check of the content of what was signed.
use sigstore_rust.Common.{true, Option, none, some, Bytes, bytes_eq_refl, ◌≡◌, refl}
use sigstore_rust.Common.Fallible.{ok, >>=-eq-ok, ok_inj, ok_or-eq-ok}
use sigstore_rust.Types.Artifact.{Artifact, raw_bytes, sha2_256}
use sigstore_rust.Types.Bundle.{
  Bundle, TransparencyLogEntry, certificate, SignatureContent, message_signature,
}
use sigstore_rust.Tuf.Key.{ecdsa_p256_sha256}
use sigstore_rust.Crypto.Signing.{ecdsa_p256, resolve_signing_scheme}
use sigstore_rust.Crypto.Verification
use sigstore_rust.Crypto.Verification.{verify_signature, from_spki}
use sigstore_rust.Crypto.X509.{CertificateInfo, parse_certificate_info}
use sigstore_rust.Verify.Platform.{Platform}
use sigstore_rust.Verify.Helpers.{extract_certificate}
use sigstore_rust.Verify.Content.{
  verify_content, check_message_digest, compute_artifact_digest_algo,
  verify_message_signature_crypto, signature_scheme, verify_signature_over_artifact,
}
use sigstore_rust.Builder.{
  into_bundle, with_tlog_entry, with_rfc3161_timestamp, with_certificate_and_signature, build,
}
use sigstore_rust.Sign.{
  Services, Signer, with_timestamp, sign_with, generate_ephemeral_keypair, request_certificate,
  create_rekor_entry, request_timestamp, sign,
}

-- The certificate and the content of a bundle.
abbrev pub Carries : Bytes → SignatureContent → Bundle → Type 0
Carries cert content bundle =
    (bundle.verification_material.content ≡ certificate cert) × (bundle.content ≡ content)

signed_message-Carries :
    (cert signature hash : Bytes) (entry : TransparencyLogEntry) (timestamp : Option Bytes)
    → Carries cert
        (message_signature (record {
          message_digest = some (record { algorithm = sha2_256; digest = hash });
          signature = signature;
        }))
        (into_bundle (
          with_timestamp
            (with_tlog_entry (with_certificate_and_signature cert signature hash) entry)
            timestamp))
unfolding into_bundle with_certificate_and_signature with_tlog_entry with_rfc3161_timestamp
signed_message-Carries cert signature hash entry none = (refl, refl)
signed_message-Carries cert signature hash entry (some ts) = (refl, refl)

pub Carries-same :
    (cert : Bytes) (content : SignatureContent) (b c : Bundle)
    → b ≡ c
    → Carries cert content b
    → Carries cert content c
Carries-same cert content b c e h = rw (← e) h

module _ (p : Platform) where
  -- The certificate reads as one for the key, of the algorithm that the signer uses.
  abbrev pub Certifies : Bytes → Bytes → Type 0
  Certifies cert key =
      (info : CertificateInfo) × (parse_certificate_info p.utf8_string p.from_utf8
          p.certificate_from_der cert
        ≡ ok info)
      × (info.key_algorithm ≡ ecdsa_p256)
      × (p.keys.subject_public_key info.public_key ≡ some key)

  pub verified_signature :
      (public_key key message signature : Bytes)
      → p.keys.subject_public_key public_key ≡ some key
      → p.keys.verify ecdsa_p256_sha256 key message signature ≡ true
      → verify_signature p.keys public_key message signature ecdsa_p256_sha256 ≡ ok tt
  unfolding verify_signature from_spki Verification.verify
  verified_signature public_key key message signature found good = rw (found, good)

  message_accepted :
      (info : CertificateInfo) (bytes signature hash : Bytes)
      → info.key_algorithm ≡ ecdsa_p256
      → hash ≡ p.keys.sha256 bytes
      → verify_signature p.keys info.public_key bytes signature ecdsa_p256_sha256 ≡ ok tt
      → verify_content p info
          (message_signature (record {
            message_digest = some (record { algorithm = sha2_256; digest = hash });
            signature = signature;
          }))
          (raw_bytes bytes)
        ≡ ok tt
  unfolding verify_content check_message_digest compute_artifact_digest_algo
      verify_message_signature_crypto signature_scheme resolve_signing_scheme
      verify_signature_over_artifact
  message_accepted info bytes signature hash p256 hashed good =
      rw (p256, hashed, bytes_eq_refl (p.keys.sha256 bytes), good, resolve_signing_scheme) refl

  -- The verifier's steps on the certificate, and step 7, accept the bundle for the artifact.
  abbrev pub ContentAccepted : Bundle → Artifact → Type 0
  ContentAccepted bundle artifact =
      (cert : Bytes) × (info : CertificateInfo) × (extract_certificate
          bundle.verification_material.content
        ≡ ok cert)
      × (parse_certificate_info p.utf8_string p.from_utf8 p.certificate_from_der cert ≡ ok info)
      × (verify_content p info bundle.content artifact ≡ ok tt)

  pub content_accepted :
      (bundle : Bundle) (artifact : Artifact) (cert : Bytes) (content : SignatureContent)
      (info : CertificateInfo)
      → Carries cert content bundle
      → parse_certificate_info p.utf8_string p.from_utf8 p.certificate_from_der cert ≡ ok info
      → verify_content p info content artifact ≡ ok tt
      → ContentAccepted bundle artifact
  unfolding extract_certificate
  content_accepted bundle artifact cert content info (has, is) parsed good =
      (cert, info, rw has, parsed, rw is good)

  module _ (s : Services) (signer : Signer) (public : Bytes → Bytes) where
    -- What a key pair signs, its public key verifies.
    abbrev pub KeysVerify : Type 0
    KeysVerify =
        (key_pair message signature : Bytes)
        → s.sign_message key_pair message ≡ some signature
        → p.keys.verify ecdsa_p256_sha256 (public key_pair) message signature ≡ true

    -- Fulcio's certificate is for the public key of the key pair of the request.
    abbrev pub FulcioCertifies : Type 0
    FulcioCertifies =
        (key_pair cert : Bytes)
        → s.request_certificate signer.fulcio_url signer.identity_token key_pair ≡ some cert
        → Certifies cert (public key_pair)

    -- If the public key verifies what its key pair signs, Fulcio certifies the key of its request, and
    -- signer and verifier compute the same hashes, then the verifier's check of the certificate's text
    -- and of the content accepts the bundle that `sign` gives for the artifact.
    pub sign-ContentAccepted :
        (bytes : Bytes) (bundle : Bundle)
        → KeysVerify
        → FulcioCertifies
        → ((m : Bytes) → s.sha256 m ≡ p.keys.sha256 m)
        → sign s signer (raw_bytes bytes) ≡ ok bundle
        → ContentAccepted bundle (raw_bytes bytes)
    unfolding sign request_certificate
    sign-ContentAccepted bytes bundle keys fulcio hashes e =
        let (key_pair, _, e1) = >>=-eq-ok (generate_ephemeral_keypair s signer) _ e in
        let (cert, requested, e2) = >>=-eq-ok (request_certificate s signer key_pair) _ e1 in
        let (signature, signed, e3) = >>=-eq-ok (sign_with s signer key_pair bytes) _ e2 in
        let (entry, _, e4) =
          >>=-eq-ok (create_rekor_entry s signer (s.sha256 bytes) signature cert) _ e3 in
        let (timestamp, _, e5) = >>=-eq-ok (request_timestamp s signer signature) _ e4 in
        let (info, parsed, p256, found) = fulcio key_pair cert (ok_or-eq-ok _ _ requested) in
        let good = keys key_pair bytes signature (ok_or-eq-ok _ _ signed) in
        content_accepted bundle (raw_bytes bytes) cert _ info
          (Carries-same cert _ _ bundle (ok_inj e5)
            (signed_message-Carries cert signature (s.sha256 bytes) (build entry) timestamp))
          parsed
          (message_accepted info bytes signature (s.sha256 bytes) p256 (hashes bytes)
            (verified_signature info.public_key (public key_pair) bytes signature found good))
