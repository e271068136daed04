-- ===== src/Verify/Verifier/Logged.antt =====
-- crates/sigstore-verify/src/verify.rs with verify_impl/hashedrekord.rs: what the log's entries of an
-- accepted bundle say about its artifact, signature and certificate.
use sigstore_rust.Common.{
  List, [], ◌∷◌, true, ◌||◌, Bytes, str, some, All, bytes_eq, eq_of_bytes_eq, ◌≡◌, Option-cases,
  inl, inr, ap, sym, ◌∙◌,
}
use sigstore_rust.Common.Fallible.{ok, >>=-eq-ok, ensure_then_ok, ensure-eq-ok}
use sigstore_rust.Types.Artifact.{Artifact}
use sigstore_rust.Types.Encoding.{Sha256Hash}
use sigstore_rust.Types.Bundle.{
  Bundle, TransparencyLogEntry, SignatureContent, message_signature, MessageSignature,
  content_certificate,
}
use sigstore_rust.Rekor.Body.{RekorEntryBody}
use sigstore_rust.TrustRoot.{TrustedRoot, Timestamp}
use sigstore_rust.Crypto.X509.{CertificateInfo}
use sigstore_rust.Verify.Platform.{Platform}
use sigstore_rust.Verify.Hashedrekord.{
  entry_body, signed_hash, rekord_hash, rekord_certificate, rekord_signature, content_signature,
  validate_artifact_hash, validate_certificate_match, validate_signature_match, same_signature,
  verify_hashedrekord_entry,
}
use sigstore_rust.Verify.Consistency.{
  verify_message_entry, entry_consistent, consistency_loop, verify_tlog_consistency,
}
use sigstore_rust.Verify.Tlog.Times.{Accepted, verify_tlog_entries-Accepted}
use sigstore_rust.Verify.Verifier.{
  VerificationPolicy, VerificationResult, verify_log, verify_consistency, verify,
}
use sigstore_rust.Verify.Verifier.Accepted.{verify_ok}
use sigstore_rust.Verify.Verifier.Policy.{HasCertificate}

module _ (p : Platform) where
  -- The body of the entry records the hash that is signed, the bundle's signature, and the bundle's
  -- certificate where both have one.
  abbrev pub Records : Bundle → Artifact → TransparencyLogEntry → Type 0
  Records bundle artifact entry =
      (body : RekorEntryBody) × (hash : Sha256Hash) × (entry_body p entry ≡ ok body)
      × (signed_hash p bundle.content artifact ≡ ok hash)
      × (rekord_hash p body ≡ ok hash)
      × ((sig : Bytes)
          → rekord_signature p body ≡ some sig
          → content_signature bundle.content ≡ some sig)
      × ((cert logged : Bytes)
          → content_certificate bundle.verification_material.content ≡ some cert
          → rekord_certificate p body ≡ ok (some logged)
          → cert ≡ logged)

  same_signature_ok :
      (content : SignatureContent) (sig : Bytes)
      → same_signature p content sig ≡ ok tt
      → content_signature content ≡ some sig
  unfolding same_signature
  same_signature_ok content sig e = elim (Option-cases (content_signature content)) [
    | inl missing ↦ cc (rw (missing, same_signature) at e)
    | inr (mine, has) ↦
        let same : bytes_eq mine sig ≡ true = ensure-eq-ok _ _ (rw (has, same_signature) at e) in
        has ∙ ap some (eq_of_bytes_eq mine sig same)
  ]

  validate_signature_match_ok :
      (body : RekorEntryBody) (bundle : Bundle) (sig : Bytes)
      → validate_signature_match p body bundle ≡ ok tt
      → rekord_signature p body ≡ some sig
      → content_signature bundle.content ≡ some sig
  unfolding validate_signature_match
  validate_signature_match_ok body bundle sig e found =
      same_signature_ok bundle.content sig (rw (found, validate_signature_match) at e)

  validate_certificate_match_ok :
      (body : RekorEntryBody) (bundle : Bundle) (cert logged : Bytes)
      → validate_certificate_match p body bundle ≡ ok tt
      → content_certificate bundle.verification_material.content ≡ some cert
      → rekord_certificate p body ≡ ok (some logged)
      → cert ≡ logged
  unfolding validate_certificate_match
  validate_certificate_match_ok body bundle cert logged e has found =
      let same : bytes_eq cert logged ≡ true =
        ensure-eq-ok _ _ (rw (has, found, validate_certificate_match) at e) in
      eq_of_bytes_eq cert logged same

  verify_hashedrekord_entry-Records :
      (entry : TransparencyLogEntry) (bundle : Bundle) (artifact : Artifact)
      → verify_hashedrekord_entry p entry bundle artifact ≡ ok tt
      → Records bundle artifact entry
  unfolding verify_hashedrekord_entry validate_artifact_hash
  verify_hashedrekord_entry-Records entry bundle artifact e =
      let (body, parsed, e1) = >>=-eq-ok (entry_body p entry) _ e in
      let (hash, hashed, e2) = >>=-eq-ok (signed_hash p bundle.content artifact) _ e1 in
      let (expected, recorded, e3) = >>=-eq-ok (rekord_hash p body) _ e2 in
      let (same, e4) = ensure_then_ok (bytes_eq hash expected) _ _ e3 in
      let (_, cert, e5) = >>=-eq-ok (validate_certificate_match p body bundle) _ e4 in
      let (_, sig, _) = >>=-eq-ok (validate_signature_match p body bundle) _ e5 in
      (
        body,
        hash,
        parsed,
        hashed,
        recorded ∙ ap ok (sym (eq_of_bytes_eq hash expected same)),
        (λ s found. validate_signature_match_ok body bundle s sig found),
        (λ c l has found. validate_certificate_match_ok body bundle c l cert has found),
      )

  consistency_loop-Records :
      (bundle : Bundle) (artifact : Artifact) (m : MessageSignature)
      (entries : List TransparencyLogEntry)
      → bundle.content ≡ message_signature m
      → consistency_loop p bundle artifact entries ≡ ok tt
      → All (Records bundle artifact) entries
  unfolding consistency_loop entry_consistent verify_message_entry
  consistency_loop-Records bundle artifact m [] is e = tt
  consistency_loop-Records bundle artifact m (entry ∷ rest) is e =
      let (_, first, e1) = >>=-eq-ok (entry_consistent p entry bundle artifact) _ e in
      let message : verify_message_entry p entry bundle artifact ≡ ok tt =
        rw (is, entry_consistent) at first in
      let (_, e2) =
        ensure_then_ok (bytes_eq entry.kind_version.kind (str "hashedrekord")) _ _ message in
      let (_, e3) =
        ensure_then_ok
          (bytes_eq entry.kind_version.version (str "0.0.1")
            || bytes_eq entry.kind_version.version (str "0.0.2"))
          _ _ e2 in
      (
        verify_hashedrekord_entry-Records entry bundle artifact e3,
        consistency_loop-Records bundle artifact m rest is e1,
      )

  -- If the policy verifies the log, every entry of an accepted bundle passes `verify_entry_inclusion`,
  -- and an integrated time above 0 is in the validity of the bundle's certificate and not after the
  -- present and the tolerance.
  pub verify_entries-Accepted :
      (root : TrustedRoot) (now : Timestamp) (artifact : Artifact) (bundle : Bundle)
      (policy : VerificationPolicy) (r : VerificationResult)
      → policy.verify_tlog ≡ true
      → verify p root now artifact bundle policy ≡ ok r
      → (cert : Bytes) × (info : CertificateInfo) × HasCertificate p bundle cert info
        × All
            (Accepted p root info.not_before info.not_after policy.clock_skew_seconds now)
            bundle.verification_material.tlog_entries
  unfolding verify_log
  verify_entries-Accepted root now artifact bundle policy r on e =
      let (cert, info, extracted, parsed, _, _, _, log, _, _) =
        verify_ok p root now artifact bundle policy r e in
      (
        cert,
        info,
        (extracted, parsed),
        verify_tlog_entries-Accepted p root info.not_before info.not_after policy.clock_skew_seconds
            now bundle r.integrated_time (rw (on, verify_log) at log),
      )

  -- If the policy verifies the log, every entry of an accepted bundle with a message signature records
  -- the artifact's SHA-256 hash, the bundle's signature, and the bundle's certificate if it records one.
  pub verify_message_recorded :
      (root : TrustedRoot) (now : Timestamp) (artifact : Artifact) (bundle : Bundle)
      (policy : VerificationPolicy) (r : VerificationResult) (m : MessageSignature)
      → policy.verify_tlog ≡ true
      → bundle.content ≡ message_signature m
      → verify p root now artifact bundle policy ≡ ok r
      → All (Records bundle artifact) bundle.verification_material.tlog_entries
  unfolding verify_consistency verify_tlog_consistency
  verify_message_recorded root now artifact bundle policy r m on is e =
      let (_, _, _, _, _, _, _, _, _, consistent) =
        verify_ok p root now artifact bundle policy r e in
      consistency_loop-Records bundle artifact m _ is (rw (on, verify_consistency) at consistent)
