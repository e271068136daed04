-- ===== src/Rekor/Entry.antt =====
-- crates/sigstore-rekor/src/entry.rs: what is sent to Rekor and what it answers. The nested records of a
-- request are the fields they end in.
use sigstore_rust.Common.{[], ◌∷◌, List, Option, Bytes, Str, str}
use sigstore_rust.Common.Int.{ℤ}
use sigstore_rust.Types.Artifact.{HashAlgorithm, sha2_256}
use sigstore_rust.Types.Bundle.{KindVersion, InclusionPromise}
use sigstore_rust.Types.Dsse.{DsseEnvelope}
use sigstore_rust.Types.Encoding.{Codec, Sha256Hash, LogKeyId}

pub data RekorApiVersion : Type 0 where
  v1 v2 : RekorApiVersion

unfoldable pub default_url : RekorApiVersion → Str
default_url v1 = str "https://rekor.sigstore.dev"
default_url v2 = str "https://log2025-1.rekor.sigstore.dev"

unfoldable pub default_staging_url : RekorApiVersion → Str
default_staging_url v1 = str "https://rekor.sigstage.dev"
default_staging_url v2 = str "https://log2025-alpha2.rekor.sigstage.dev"

-- Hashes are in hex, as the V1 API returns them.
pub record RekorInclusionProof : Type 0 where
  pub checkpoint : Str
  pub hashes : List Str
  pub log_index : ℤ
  pub root_hash : Str
  pub tree_size : ℤ

pub record Verification : Type 0 where
  pub inclusion_proof : Option RekorInclusionProof
  pub signed_entry_timestamp : Option Bytes

-- `log_id` is in hex.
pub record LogEntry : Type 0 where
  pub uuid : Str
  pub body : Bytes
  pub integrated_time : ℤ
  pub log_id : Str
  pub log_index : ℤ
  pub verification : Option Verification

-- `spec.data.hash`, `spec.signature.content` and `spec.signature.public_key.content`
pub record HashedRekord : Type 0 where
  pub api_version : Str
  pub kind : Str
  pub hash_algorithm : HashAlgorithm
  pub hash_value : Str
  pub signature_content : Bytes
  pub public_key_content : Bytes

-- `spec.proposed_content`, always present, and no `spec.signatures`
pub record DsseEntry : Type 0 where
  pub api_version : Str
  pub kind : Str
  pub envelope : Str
  pub verifiers : List Str

-- `request.digest`, `request.signature.content`, and of its verifier the key details and the certificate,
-- always present, and no public key
pub record HashedRekordV2 : Type 0 where
  pub digest : Sha256Hash
  pub signature_content : Bytes
  pub key_details : Str
  pub x509_certificate : Bytes

pub record DsseVerifierV2 : Type 0 where
  pub key_details : Str
  pub x509_certificate : Bytes

pub record DsseEntryV2 : Type 0 where
  pub envelope : DsseEnvelope
  pub verifiers : List DsseVerifierV2

pub record InclusionProofV2 : Type 0 where
  pub log_index : Str
  pub root_hash : Sha256Hash
  pub tree_size : Str
  pub hashes : List Sha256Hash
  pub checkpoint : Str

pub record LogEntryV2 : Type 0 where
  pub log_index : Str
  pub log_id : LogKeyId
  pub kind_version : KindVersion
  pub integrated_time : Str
  pub inclusion_promise : Option InclusionPromise
  pub inclusion_proof : Option InclusionProofV2
  pub canonicalized_body : Bytes

-- `to_pem` is `DerCertificate::to_pem`, by the `pem` crate.
module _ (codec : Codec) (to_pem : Bytes → Str) where
  unfoldable pub hashed_rekord : Sha256Hash → Bytes → Bytes → HashedRekord
  hashed_rekord artifact_hash signature certificate = record {
    api_version = str "0.0.1";
    kind = str "hashedrekord";
    hash_algorithm = sha2_256;
    hash_value = codec.hex_encode artifact_hash;
    signature_content = signature;
    public_key_content = to_pem certificate;
  }

  -- `to_json` is `serde_json::to_string` of an envelope.
  unfoldable pub dsse_entry : (to_json : DsseEnvelope → Str) → DsseEnvelope → Bytes → DsseEntry
  dsse_entry to_json envelope certificate = record {
    api_version = str "0.0.1";
    kind = str "dsse";
    envelope = to_json envelope;
    verifiers = codec.base64_encode (to_pem certificate) ∷ [];
  }

abbrev p256_key_details : Str
p256_key_details = str "PKIX_ECDSA_P256_SHA_256"

unfoldable pub hashed_rekord_v2 : Sha256Hash → Bytes → Bytes → HashedRekordV2
hashed_rekord_v2 artifact_hash signature certificate = record {
  digest = artifact_hash;
  signature_content = signature;
  key_details = p256_key_details;
  x509_certificate = certificate;
}

unfoldable pub dsse_entry_v2 : DsseEnvelope → Bytes → DsseEntryV2
dsse_entry_v2 envelope certificate = record {
  envelope = envelope;
  verifiers = record { key_details = p256_key_details; x509_certificate = certificate } ∷ [];
}
