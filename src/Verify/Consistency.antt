-- ===== src/Verify/Consistency.antt =====
-- crates/sigstore-verify/src/verify_impl/rekor.rs: the entries against the bundle and the artifact.
use sigstore_rust.Common.{
  List, [], ◌∷◌, Bool, true, false, ◌||◌, Bytes, str, Option, none, some, if◌then◌else◌, bytes_eq,
  ◌==◌, length,
}
use sigstore_rust.Common.Fallible.{ok, err, ◌>>=◌, ◌>>◌, ok_or}
use sigstore_rust.Types.Artifact.{Artifact}
use sigstore_rust.Types.Dsse.{DsseEnvelope, DsseSignature}
use sigstore_rust.Types.Bundle.{
  Bundle, TransparencyLogEntry, message_signature, dsse_envelope, content_certificate,
}
use sigstore_rust.Rekor.Body.{
  RekorEntryBody, DsseV001Body, DsseV001Signature, IntotoV002Body, dsse_v001, intoto_v002,
  to_certificate,
}
use sigstore_rust.Verify.Platform.{Platform, Result, verification, or_verification}
use sigstore_rust.Verify.Hashedrekord.{entry_body, verify_hashedrekord_entry, guard}

abbrev dsse_v001_body : RekorEntryBody → Result DsseV001Body
dsse_v001_body (dsse_v001 body) = ok body
dsse_v001_body _ = err verification

abbrev intoto_v002_body : RekorEntryBody → Result IntotoV002Body
intoto_v002_body (intoto_v002 body) = ok body
intoto_v002_body _ = err verification

module _ (p : Platform) where
  -- Whether an entry's signature has the bundle's certificate, if the bundle has one.
  unfoldable pub same_verifier : Option Bytes → DsseV001Signature → Result Bool
  unfolding to_certificate
  same_verifier none rekor_sig = ok true
  same_verifier (some cert) rekor_sig = do
    rekor_cert ← or_verification (to_certificate p.bodies rekor_sig.verifier)
    ok (bytes_eq cert rekor_cert)

  -- The inner loop: whether a signature of the bundle is among the entry's.
  unfoldable pub find_signature : Option Bytes → Bytes → List DsseV001Signature → Result Bool
  unfolding same_verifier
  find_signature bundle_cert sig [] = ok false
  find_signature bundle_cert sig (rekor_sig ∷ rest) = elim (bytes_eq sig rekor_sig.signature) [
    | false ↦ find_signature bundle_cert sig rest
    | true ↦
        (same_verifier bundle_cert rekor_sig >>= λ same. elim same [
          | true ↦ ok true
          | false ↦ find_signature bundle_cert sig rest
        ])
  ]

  unfoldable pub match_signatures :
      Option Bytes → List DsseV001Signature → List DsseSignature → Result (Unit {0})
  unfolding find_signature
  match_signatures bundle_cert rekor_signatures [] = ok tt
  match_signatures bundle_cert rekor_signatures (bundle_sig ∷ rest) = do
    found ← find_signature bundle_cert bundle_sig.sig rekor_signatures
    guard found
    match_signatures bundle_cert rekor_signatures rest

  unfoldable pub verify_dsse_v001 : TransparencyLogEntry → DsseEnvelope → Bundle → Result (Unit {0})
  unfolding entry_body match_signatures content_certificate
  verify_dsse_v001 entry envelope bundle = do
    parsed ← entry_body p entry
    body ← dsse_v001_body parsed
    guard (bytes_eq (p.codec.hex_encode (p.keys.sha256 envelope.payload)) body.payload_hash_value)
    guard (length envelope.signatures == length body.signatures)
    match_signatures (content_certificate bundle.verification_material.content) body.signatures
        envelope.signatures

  -- Whether a signature of the bundle is among the decoded ones of the entry.
  unfoldable pub find_decoded : Bytes → List Bytes → Result Bool
  find_decoded sig [] = ok false
  find_decoded sig (rekor_sig ∷ rest) = elim (p.codec.base64_decode rekor_sig) [
    | none ↦ err verification
    | some decoded ↦ elim (bytes_eq sig decoded) [ true ↦ ok true | false ↦ find_decoded sig rest ]
  ]

  unfoldable pub any_decoded : List Bytes → List DsseSignature → Result Bool
  unfolding find_decoded
  any_decoded rekor_signatures [] = ok false
  any_decoded rekor_signatures (bundle_sig ∷ rest) = do
    found ← find_decoded bundle_sig.sig rekor_signatures
    elim found [ true ↦ ok true | false ↦ any_decoded rekor_signatures rest ]

  unfoldable pub verify_intoto_v002 : TransparencyLogEntry → DsseEnvelope → Result (Unit {0})
  unfolding entry_body any_decoded
  verify_intoto_v002 entry envelope = do
    parsed ← entry_body p entry
    body ← intoto_v002_body parsed
    rekor_payload ← ok_or (p.codec.base64_decode body.payload) verification
    guard (bytes_eq envelope.payload rekor_payload)
    found_match ← any_decoded body.signatures envelope.signatures
    guard found_match

  unfoldable pub verify_dsse_entry :
      TransparencyLogEntry → DsseEnvelope → Bundle → Artifact → Result (Unit {0})
  unfolding verify_hashedrekord_entry verify_dsse_v001 verify_intoto_v002
  verify_dsse_entry entry envelope bundle artifact =
      let version = entry.kind_version.version in
      let kind = entry.kind_version.kind in
      if bytes_eq kind (str "hashedrekord")
      then (guard (bytes_eq version (str "0.0.2"))
          >> verify_hashedrekord_entry p entry bundle artifact)
      else if bytes_eq kind (str "dsse")
      then (guard (bytes_eq version (str "0.0.1")) >> verify_dsse_v001 entry envelope bundle)
      else if bytes_eq kind (str "intoto")
      then (guard (bytes_eq version (str "0.0.2")) >> verify_intoto_v002 entry envelope)
      else err verification

  unfoldable pub verify_message_entry : TransparencyLogEntry → Bundle → Artifact → Result (Unit {0})
  unfolding verify_hashedrekord_entry
  verify_message_entry entry bundle artifact = do
    guard (bytes_eq entry.kind_version.kind (str "hashedrekord"))
    guard (
        bytes_eq entry.kind_version.version (str "0.0.1")
        || bytes_eq entry.kind_version.version (str "0.0.2"))
    verify_hashedrekord_entry p entry bundle artifact

  unfoldable pub entry_consistent : TransparencyLogEntry → Bundle → Artifact → Result (Unit {0})
  unfolding verify_dsse_entry verify_message_entry
  entry_consistent entry bundle artifact = elim bundle.content [
    | dsse_envelope envelope ↦ verify_dsse_entry entry envelope bundle artifact
    | message_signature sig ↦ verify_message_entry entry bundle artifact
  ]

  unfoldable pub consistency_loop :
      Bundle → Artifact → List TransparencyLogEntry → Result (Unit {0})
  unfolding entry_consistent
  consistency_loop bundle artifact [] = ok tt
  consistency_loop bundle artifact (entry ∷ rest) = do
    entry_consistent entry bundle artifact
    consistency_loop bundle artifact rest

  unfoldable pub verify_tlog_consistency : Bundle → Artifact → Result (Unit {0})
  unfolding consistency_loop
  verify_tlog_consistency bundle artifact =
      consistency_loop bundle artifact bundle.verification_material.tlog_entries
