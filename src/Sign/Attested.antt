-- ===== src/Sign/Attested.antt =====
-- crates/sigstore-sign with crates/sigstore-verify: the verifier's check of an attestation that was signed.
use sigstore_rust.Common.{
  List, [], ◌∷◌, Bool, true, false, ◌||◌, not, is_empty, Option, none, some, Bytes, Str,
  bytes_eq_refl, length, In, ◌≡◌, refl, sym, ap, ◌∙◌, inl, inr, In-cons,
}
use sigstore_rust.Common.Fallible.{ok, >>=-eq-ok, ok_inj, ensure_then_ok, ok_or-eq-ok, ok_or}
use sigstore_rust.Types.Artifact.{raw_bytes}
use sigstore_rust.Types.Bundle.{Bundle, TransparencyLogEntry, dsse_envelope}
use sigstore_rust.Types.Dsse.{DsseEnvelope, Statement, Subject, pae, any_sha256, matches_sha256}
use sigstore_rust.Types.Encoding.{Codec, sha256_try_from_slice}
use sigstore_rust.Tuf.Key.{ecdsa_p256_sha256}
use sigstore_rust.Crypto.Signing.{ecdsa_p256, default_signing_scheme}
use sigstore_rust.Crypto.Verification.{verify_signature}
use sigstore_rust.Crypto.X509.{CertificateInfo}
use sigstore_rust.Verify.Platform.{Platform}
use sigstore_rust.Verify.Content.{
  verify_content, verify_envelope, any_sig_valid, verify_dsse_artifact_binding,
  compute_artifact_digest_algo,
}
use sigstore_rust.Builder.{
  into_bundle, with_tlog_entry, with_rfc3161_timestamp, with_certificate_and_dsse, build,
}
use sigstore_rust.Sign.{
  Services, Signer, Attestation, AttestationSubject, with_timestamp, sign_with,
  generate_ephemeral_keypair, request_certificate, create_dsse_rekor_entry, request_timestamp,
  sign_raw_statement, sign_attestation, statement_subjects, build_statement, in_toto,
}
use sigstore_rust.Sign.Accepted.{
  Carries, Carries-same, ContentAccepted, content_accepted, KeysVerify, FulcioCertifies,
  verified_signature,
}

-- The envelope of a statement.
abbrev envelope_of : Bytes → Bytes → DsseEnvelope
envelope_of statement signature = record {
  payload_type = in_toto;
  payload = statement;
  signatures = record { sig = signature; keyid = [] } ∷ [];
}

signed_envelope-Carries :
    (cert : Bytes) (envelope : DsseEnvelope) (entry : TransparencyLogEntry)
    (timestamp : Option Bytes)
    → Carries cert (dsse_envelope envelope) (
        into_bundle (
          with_timestamp
            (with_tlog_entry (with_certificate_and_dsse cert envelope) entry)
            timestamp))
unfolding into_bundle with_certificate_and_dsse with_tlog_entry with_rfc3161_timestamp
signed_envelope-Carries cert envelope entry none = (refl, refl)
signed_envelope-Carries cert envelope entry (some ts) = (refl, refl)

or_right : (a b : Bool) → b ≡ true → (a || b) ≡ true
or_right true b h = refl
or_right false b h = h

subject_found :
    (codec : Codec) (subjects : List AttestationSubject) (x : AttestationSubject)
    → In subjects x
    → any_sha256 (statement_subjects codec subjects) (codec.hex_encode x.digest) ≡ true
unfolding any_sha256 statement_subjects
subject_found codec [] x (i, h) = cc
subject_found codec (y ∷ ys) x m = elim (In-cons y ys m) [
  | inl here ↦ rw (here, bytes_eq_refl (codec.hex_encode x.digest)) refl
  | inr later ↦ or_right _ _ (subject_found codec ys x later)
]

subjects_full :
    (subjects : List Subject) (hash : Str)
    → any_sha256 subjects hash ≡ true
    → not (is_empty subjects) ≡ true
unfolding any_sha256
subjects_full [] hash h = cc
subjects_full (x ∷ xs) hash h = refl

module _ (p : Platform) where
  envelope_accepted :
      (info : CertificateInfo) (artifact payload signature : Bytes) (text : Str)
      (statement : Statement)
      → info.key_algorithm ≡ ecdsa_p256
      → verify_signature p.keys info.public_key (pae in_toto payload) signature ecdsa_p256_sha256
        ≡ ok tt
      → length (p.keys.sha256 artifact) ≡ 32
      → p.from_utf8 payload ≡ some text
      → p.parse_statement text ≡ some statement
      → any_sha256 statement.subject (p.codec.hex_encode (p.keys.sha256 artifact)) ≡ true
      → verify_content p info (dsse_envelope (envelope_of payload signature)) (raw_bytes artifact)
        ≡ ok tt
  unfolding verify_content verify_envelope any_sig_valid verify_dsse_artifact_binding
      compute_artifact_digest_algo sha256_try_from_slice matches_sha256 default_signing_scheme
  envelope_accepted info artifact payload signature text statement p256 good wide utf8 parsed
        found =
      rw (p256, good, wide, utf8, parsed, subjects_full statement.subject _ found, found) refl

  module _ (s : Services) (signer : Signer) (public : Bytes → Bytes) where
    -- What serde_json writes of the statement, it reads back.
    abbrev pub StatementReads : Statement → Type 0
    StatementReads statement =
        (json : Bytes)
        → s.statement_to_vec statement ≡ some json
        → (text : Str) × (p.from_utf8 json ≡ some text) × (p.parse_statement text ≡ some statement)

    sign_raw_statement_ok :
        (statement_bytes : Bytes) (bundle : Bundle)
        → sign_raw_statement s signer statement_bytes ≡ ok bundle
        → (key_pair : Bytes) × (cert : Bytes) × (signature : Bytes) × (s.request_certificate
              signer.fulcio_url signer.identity_token key_pair
            ≡ some cert)
          × (s.sign_message key_pair (pae in_toto statement_bytes) ≡ some signature)
          × Carries cert (dsse_envelope (envelope_of statement_bytes signature)) bundle
    unfolding sign_raw_statement request_certificate
    sign_raw_statement_ok statement_bytes bundle e =
        let (key_pair, _, e1) = >>=-eq-ok (generate_ephemeral_keypair s signer) _ e in
        let (cert, requested, e2) = >>=-eq-ok (request_certificate s signer key_pair) _ e1 in
        let (_, e3) = ensure_then_ok _ _ _ e2 in
        let (signature, signed, e4) =
          >>=-eq-ok (sign_with s signer key_pair (pae in_toto statement_bytes)) _ e3 in
        let (entry, _, e5) =
          >>=-eq-ok (create_dsse_rekor_entry s signer (envelope_of statement_bytes signature) cert)
            _ e4 in
        let (timestamp, _, e6) = >>=-eq-ok (request_timestamp s signer signature) _ e5 in
        (
          key_pair,
          cert,
          signature,
          ok_or-eq-ok _ _ requested,
          ok_or-eq-ok _ _ signed,
          Carries-same cert _ _ bundle (ok_inj e6) (
              signed_envelope-Carries cert (envelope_of statement_bytes signature) (build entry)
                timestamp),
        )

    -- If the public key verifies what its key pair signs, Fulcio certifies the key of its request, signer
    -- and verifier use the same encodings, and serde_json reads back the statement that it writes, then
    -- the verifier's check of the certificate's text and of the content accepts the bundle that
    -- `sign_attestation` gives, for any artifact whose SHA-256 digest, of 32 bytes, is that of a subject.
    pub sign_attestation-ContentAccepted :
        (attestation : Attestation) (x : AttestationSubject) (artifact : Bytes) (bundle : Bundle)
        → KeysVerify p s signer public
        → FulcioCertifies p s signer public
        → StatementReads (build_statement s.codec attestation)
        → s.codec ≡ p.codec
        → In attestation.subjects x
        → x.digest ≡ p.keys.sha256 artifact
        → length x.digest ≡ 32
        → sign_attestation s signer attestation ≡ ok bundle
        → ContentAccepted p bundle (raw_bytes artifact)
    unfolding sign_attestation build_statement
    sign_attestation-ContentAccepted attestation x artifact bundle keys fulcio json codec listed
          hashed wide e =
        let (bytes, written, e1) =
          >>=-eq-ok (ok_or (s.statement_to_vec (build_statement s.codec attestation)) _) _ e in
        let (key_pair, cert, signature, requested, signed, carries) =
          sign_raw_statement_ok bytes bundle e1 in
        let (text, utf8, parsed) = json bytes (ok_or-eq-ok _ _ written) in
        let (info, read, p256, found) = fulcio key_pair cert requested in
        let good = keys key_pair (pae in_toto bytes) signature signed in
        let subject : any_sha256 (build_statement s.codec attestation).subject
              (p.codec.hex_encode (p.keys.sha256 artifact))
            ≡ true =
          rw (← hashed, ← codec) (subject_found s.codec attestation.subjects x listed) in
        content_accepted p bundle (raw_bytes artifact) cert _ info carries read (
          envelope_accepted info artifact bytes signature text (build_statement s.codec attestation)
            p256
            (verified_signature p info.public_key (public key_pair) (pae in_toto bytes) signature
              found good)
            (ap length (sym hashed) ∙ wide) utf8 parsed subject)
