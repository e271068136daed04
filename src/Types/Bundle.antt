-- ===== src/Types/Bundle.antt =====
-- crates/sigstore-types/src/bundle.rs.
use sigstore_rust.Common.{
  List, [], ◌∷◌, Bool, true, false, ◌||◌, Option, none, some, Bytes, Str, str, bytes_eq,
  if◌then◌else◌, is_empty,
}
use sigstore_rust.Common.Fallible.{ok, err}
use sigstore_rust.Common.Int.{ℤ}
use sigstore_rust.Types.Error.{Result, invalid_media_type}
use sigstore_rust.Types.Encoding.{Codec, LogIndex, LogKeyId, Sha256Hash}
use sigstore_rust.Types.Checkpoint.{Checkpoint, from_text}
use sigstore_rust.Types.Artifact.{HashAlgorithm}
use sigstore_rust.Types.Dsse.{DsseEnvelope}

pub data MediaType : Type 0 where
  bundle_0_1 bundle_0_2 bundle_0_3 : MediaType

unfoldable pub media_type_as_str : MediaType → Str
media_type_as_str bundle_0_1 = str "application/vnd.dev.sigstore.bundle+json;version=0.1"
media_type_as_str bundle_0_2 = str "application/vnd.dev.sigstore.bundle+json;version=0.2"
media_type_as_str bundle_0_3 = str "application/vnd.dev.sigstore.bundle.v0.3+json"

unfoldable pub media_type_from_str : Str → Result MediaType
media_type_from_str s =
    if bytes_eq s (str "application/vnd.dev.sigstore.bundle+json;version=0.1")
    then ok bundle_0_1
    else if bytes_eq s (str "application/vnd.dev.sigstore.bundle+json;version=0.2")
    then ok bundle_0_2
    else if bytes_eq s (str "application/vnd.dev.sigstore.bundle.v0.3+json")
    then ok bundle_0_3
    else if bytes_eq s (str "application/vnd.dev.sigstore.bundle+json;version=0.3")
    then ok bundle_0_3
    else err invalid_media_type

pub record MessageDigest : Type 0 where
  pub algorithm : HashAlgorithm
  pub digest : Bytes

pub record MessageSignature : Type 0 where
  pub message_digest : Option MessageDigest
  pub signature : Bytes

pub data SignatureContent : Type 0 where
  message_signature : MessageSignature → SignatureContent
  dsse_envelope : DsseEnvelope → SignatureContent

-- The certificates are the bytes of their DER documents.
pub data VerificationMaterialContent : Type 0 where
  certificate : (raw_bytes : Bytes) → VerificationMaterialContent
  x509_certificate_chain : (certificates : List Bytes) → VerificationMaterialContent
  public_key : (hint : Str) → VerificationMaterialContent

pub record KindVersion : Type 0 where
  pub kind : Str
  pub version : Str

-- `InclusionPromise`
pub record InclusionPromise : Type 0 where
  pub signed_entry_timestamp : Bytes

-- `checkpoint` is the envelope of the source's `CheckpointData`.
pub record InclusionProof : Type 0 where
  pub log_index : LogIndex
  pub root_hash : Sha256Hash
  pub tree_size : ℤ
  pub hashes : List Sha256Hash
  pub checkpoint : Str

-- `log_id` is the key identifier of the source's `LogId`.
pub record TransparencyLogEntry : Type 0 where
  pub log_index : LogIndex
  pub log_id : LogKeyId
  pub kind_version : KindVersion
  pub integrated_time : ℤ
  pub inclusion_promise : Option InclusionPromise
  pub inclusion_proof : Option InclusionProof
  pub canonicalized_body : Bytes

-- The last field is the list of signed timestamps of `TimestampVerificationData`.
pub record VerificationMaterial : Type 0 where
  pub content : VerificationMaterialContent
  pub tlog_entries : List TransparencyLogEntry
  pub rfc3161_timestamps : List Bytes

pub record Bundle : Type 0 where
  pub media_type : Str
  pub verification_material : VerificationMaterial
  pub content : SignatureContent

unfoldable pub version : Bundle → Result MediaType
unfolding media_type_from_str
version bundle = media_type_from_str bundle.media_type

abbrev pub first {ℓ} : {A : Type ℓ} → List A → Option A
first [] = none
first (x ∷ _) = some x

unfoldable pub content_certificate : VerificationMaterialContent → Option Bytes
content_certificate (certificate cert) = some cert
content_certificate (x509_certificate_chain certificates) = first certificates
content_certificate (public_key hint) = none

unfoldable pub signing_certificate : Bundle → Option Bytes
unfolding content_certificate
signing_certificate bundle = content_certificate bundle.verification_material.content

abbrev pub is_some {ℓ} : {A : Type ℓ} → Option A → Bool
is_some none = false
is_some (some _) = true

abbrev any_entry : (TransparencyLogEntry → Bool) → List TransparencyLogEntry → Bool
any_entry test [] = false
any_entry test (e ∷ rest) = test e || any_entry test rest

unfoldable pub has_inclusion_proof : Bundle → Bool
has_inclusion_proof bundle =
    any_entry (λ e. is_some e.inclusion_proof) bundle.verification_material.tlog_entries

unfoldable pub has_inclusion_promise : Bundle → Bool
has_inclusion_promise bundle =
    any_entry (λ e. is_some e.inclusion_promise) bundle.verification_material.tlog_entries

-- `CheckpointData::parse` and `is_empty`
unfoldable pub checkpoint_parse : Codec → Str → Result Checkpoint
unfolding from_text
checkpoint_parse codec envelope = from_text codec envelope

unfoldable pub checkpoint_is_empty : Str → Bool
checkpoint_is_empty envelope = is_empty envelope
