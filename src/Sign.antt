-- ===== src/Sign.antt =====
-- crates/sigstore-sign/src/sign.rs: signing an artifact or a statement, and attestations. The
-- key pairs, and the clients of Fulcio and of the timestamp authority, are parameters.
pub mod Config
pub mod Accepted
pub mod Attested
use sigstore_rust.Common.{
  ℕ, [], ◌∷◌, ◌++◌, List, Bool, true, false, Option, none, some, Bytes, Str, str, ◌==◌,
  if◌then◌else◌,
}
use sigstore_rust.Common.Fallible
use sigstore_rust.Common.Fallible.{ok, err, ◌>>=◌, ◌>>◌, ensure, ok_or}
use sigstore_rust.Types.Artifact.{Artifact, raw_bytes, digest}
use sigstore_rust.Types.Bundle.{Bundle}
use sigstore_rust.Types.Dsse.{DsseEnvelope, Subject, Statement, pae, envelope_pae}
use sigstore_rust.Types.Encoding.{Codec, Sha256Hash}
use sigstore_rust.TrustRoot.{Timestamp}
use sigstore_rust.TrustRoot.SigningConfig
use sigstore_rust.TrustRoot.SigningConfig.{
  ServiceEndpoint, get_fulcio_url, get_rekor_url, get_tsa_url, get_oidc_url,
}
use sigstore_rust.Tuf.Key.{SigningScheme, ecdsa_p256_sha256}
use sigstore_rust.Rekor.Entry.{
  RekorApiVersion, v1, v2, default_url, LogEntry, hashed_rekord, hashed_rekord_v2, dsse_entry,
}
use sigstore_rust.Rekor.Client
use sigstore_rust.Rekor.Client.{Http, create_entry, create_entry_v2, create_dsse_entry}
use sigstore_rust.Builder.{
  BundleV03, TlogEntryBuilder, from_log_entry, build, with_certificate_and_signature,
  with_certificate_and_dsse, with_tlog_entry, with_rfc3161_timestamp, into_bundle,
}
use sigstore_rust.Sign.Config.{Error, Result, signing, crypto, or_signing, SignerConfig}

-- What signing uses of other code. A key pair is its PKCS#8 document.
pub record Services : Type 0 where
  pub codec : Codec
  pub sha256 : Bytes → Sha256Hash
  pub to_pem : Bytes → Str
  -- aws-lc-rs: `KeyPair::generate_ecdsa_p256` and `KeyPair::sign`
  pub generate_ecdsa_p256 : Option Bytes
  pub sign_message : (key_pair : Bytes) → (message : Bytes) → Option Bytes
  -- crates/sigstore-fulcio: the leaf of `create_signing_certificate`: URL, token, key pair
  pub request_certificate : (url : Str) → (identity_token : Str) → (key_pair : Bytes) → Option Bytes
  pub http_client : Http
  -- crates/sigstore-tsa: `timestamp_signature`
  pub timestamp_signature : (url : Str) → (signature : Bytes) → Option Bytes
  -- serde_json
  pub statement_to_vec : Statement → Option Bytes
  pub statement_from_slice : Bytes → Option Statement
  pub envelope_to_string : DsseEnvelope → Str

pub record Signer : Type 0 where
  pub identity_token : Str
  pub signing_scheme : SigningScheme
  pub fulcio_url : Str
  pub rekor_url : Str
  pub tsa_url : Option Str
  pub rekor_api_version : RekorApiVersion

-- `SigningContext::signer`
unfoldable pub signer_of : SignerConfig → (identity_token : Str) → Signer
signer_of c identity_token = record {
  identity_token = identity_token;
  signing_scheme = c.signing_scheme;
  fulcio_url = c.fulcio_url;
  rekor_url = c.rekor_url;
  tsa_url = c.tsa_url;
  rekor_api_version = c.rekor_api_version;
}

abbrev is_p256_sha256 : SigningScheme → Bool
is_p256_sha256 ecdsa_p256_sha256 = true
is_p256_sha256 _ = false

abbrev only_bytes : Artifact → Result Bytes
only_bytes (raw_bytes bytes) = ok bytes
only_bytes (digest hash) = err signing

abbrev with_timestamp : BundleV03 → Option Bytes → BundleV03
with_timestamp b none = b
with_timestamp b (some ts) = with_rfc3161_timestamp b ts

abbrev pub in_toto : Str
in_toto = str "application/vnd.in-toto+json"

module _ (s : Services) (signer : Signer) where
  unfoldable pub generate_ephemeral_keypair : Result Bytes
  generate_ephemeral_keypair = do
    ensure (is_p256_sha256 signer.signing_scheme) signing
    ok_or s.generate_ecdsa_p256 signing

  unfoldable pub request_certificate : (key_pair : Bytes) → Result Bytes
  request_certificate key_pair =
      ok_or (s.request_certificate signer.fulcio_url signer.identity_token key_pair) signing

  -- `key_pair.sign(..)?`
  abbrev pub sign_with : (key_pair message : Bytes) → Result Bytes
  sign_with key_pair message = ok_or (s.sign_message key_pair message) crypto

  abbrev rekor_entry : RekorApiVersion → Sha256Hash → Bytes → Bytes → Result TlogEntryBuilder
  rekor_entry v1 artifact_hash signature cert = do
    entry ← or_signing (
        create_entry s.codec s.http_client signer.rekor_url
          (hashed_rekord s.codec s.to_pem artifact_hash signature cert))
    ok (from_log_entry s.codec entry (str "hashedrekord") (str "0.0.1"))
  rekor_entry v2 artifact_hash signature cert = do
    entry ← or_signing (
        create_entry_v2 s.codec s.http_client signer.rekor_url
          (hashed_rekord_v2 artifact_hash signature cert))
    ok (from_log_entry s.codec entry (str "hashedrekord") (str "0.0.2"))

  unfoldable pub create_rekor_entry : Sha256Hash → Bytes → Bytes → Result TlogEntryBuilder
  unfolding create_entry create_entry_v2 hashed_rekord hashed_rekord_v2 from_log_entry
  create_rekor_entry artifact_hash signature cert =
      rekor_entry signer.rekor_api_version artifact_hash signature cert

  abbrev timestamp_at : Option Str → Bytes → Result (Option Bytes)
  timestamp_at none signature = ok none
  timestamp_at (some tsa_url) signature = do
    ts ← ok_or (s.timestamp_signature tsa_url signature) signing
    ok (some ts)

  unfoldable pub request_timestamp : Bytes → Result (Option Bytes)
  request_timestamp signature = timestamp_at signer.tsa_url signature

  unfoldable pub sign : Artifact → Result Bundle
  unfolding generate_ephemeral_keypair request_certificate create_rekor_entry request_timestamp
      with_certificate_and_signature with_tlog_entry with_rfc3161_timestamp build into_bundle
  sign artifact = do
    bytes ← only_bytes artifact
    key_pair ← generate_ephemeral_keypair
    cert ← request_certificate key_pair
    signature ← sign_with key_pair bytes
    tlog_entry ← create_rekor_entry (s.sha256 bytes) signature cert
    timestamp ← request_timestamp signature
    ok (
        into_bundle (
          with_timestamp
            (with_tlog_entry (with_certificate_and_signature cert signature (s.sha256 bytes))
              (build tlog_entry))
            timestamp))

  -- The only signature of an envelope.
  abbrev only_signature : DsseEnvelope → Result Bytes
  only_signature envelope = elim envelope.signatures [
    | [] ↦ err signing
    | x ∷ xs ↦ elim xs [ [] ↦ ok x.sig | _ ∷ _ ↦ err signing ]
  ]

  abbrev dsse_rekor_entry : RekorApiVersion → DsseEnvelope → Bytes → Bytes → Result TlogEntryBuilder
  dsse_rekor_entry v1 envelope signature cert = do
    entry ← or_signing (
        create_dsse_entry s.codec s.http_client signer.rekor_url
          (dsse_entry s.codec s.to_pem s.envelope_to_string envelope cert))
    ok (from_log_entry s.codec entry (str "dsse") (str "0.0.1"))
  dsse_rekor_entry v2 envelope signature cert = do
    entry ← or_signing (
        create_entry_v2 s.codec s.http_client signer.rekor_url
          (hashed_rekord_v2 (s.sha256 (envelope_pae envelope)) signature cert))
    ok (from_log_entry s.codec entry (str "hashedrekord") (str "0.0.2"))

  unfoldable pub create_dsse_rekor_entry : DsseEnvelope → Bytes → Result TlogEntryBuilder
  unfolding create_dsse_entry create_entry_v2 dsse_entry hashed_rekord_v2 from_log_entry
      envelope_pae
  create_dsse_rekor_entry envelope cert = do
    signature ← only_signature envelope
    dsse_rekor_entry signer.rekor_api_version envelope signature cert

  abbrev pub is_statement : Option Statement → Bool
  is_statement none = false
  is_statement (some st) = true

  unfoldable pub sign_raw_statement : Bytes → Result Bundle
  unfolding generate_ephemeral_keypair request_certificate create_dsse_rekor_entry request_timestamp
      with_certificate_and_dsse with_tlog_entry with_rfc3161_timestamp build into_bundle pae
  sign_raw_statement statement_bytes = do
    key_pair ← generate_ephemeral_keypair
    cert ← request_certificate key_pair
    ensure (is_statement (s.statement_from_slice statement_bytes)) signing
    signature ← sign_with key_pair (pae in_toto statement_bytes)
    let envelope : DsseEnvelope = record {
      payload_type = in_toto;
      payload = statement_bytes;
      signatures = record { sig = signature; keyid = [] } ∷ [];
    }
    tlog_entry ← create_dsse_rekor_entry envelope cert
    timestamp ← request_timestamp signature
    ok (
        into_bundle (
          with_timestamp
            (with_tlog_entry (with_certificate_and_dsse cert envelope) (build tlog_entry))
            timestamp))

-- `predicate` is left out, as in `Statement`.
pub record AttestationSubject : Type 0 where
  pub name : Str
  pub digest : Sha256Hash

pub record Attestation : Type 0 where
  pub subjects : List AttestationSubject
  pub predicate_type : Str

unfoldable pub add_subject : Attestation → Str → Sha256Hash → Attestation
add_subject a name hash = record a {
  subjects = a.subjects ++ record { name = name; digest = hash } ∷ [];
}

unfoldable pub with_subjects : Attestation → List (Str × Sha256Hash) → Attestation
unfolding add_subject
with_subjects a [] = a
with_subjects a ((name, hash) ∷ rest) = with_subjects (add_subject a name hash) rest

module _ (codec : Codec) where
  unfoldable pub statement_subjects : List AttestationSubject → List Subject
  statement_subjects [] = []
  statement_subjects (x ∷ xs) =
      record {
        name = x.name;
        digest = record { sha256 = some (codec.hex_encode x.digest); sha512 = none };
      }
      ∷ statement_subjects xs

  unfoldable pub build_statement : Attestation → Statement
  unfolding statement_subjects
  build_statement a = record {
    type_ = str "https://in-toto.io/Statement/v1";
    subject = statement_subjects a.subjects;
    predicate_type = a.predicate_type;
  }

module _ (s : Services) (signer : Signer) where
  unfoldable pub sign_attestation : Attestation → Result Bundle
  unfolding build_statement sign_raw_statement
  sign_attestation attestation = do
    statement_json ← ok_or (s.statement_to_vec (build_statement s.codec attestation)) signing
    sign_raw_statement s signer statement_json
