-- ===== src/Builder.antt =====
-- crates/sigstore-bundle/src/builder.rs: bundles in the v0.3 format, and their log entries.
use sigstore_rust.Common.{ℕ, zero, suc, List, [], ◌∷◌, ◌++◌, Option, none, some, Bytes, Str, str}
use sigstore_rust.Common.Int.{ℤ, pos}
use sigstore_rust.Common.Fallible.{ok, err}
use sigstore_rust.Types.Error.{Result}
use sigstore_rust.Types.Artifact.{sha2_256}
use sigstore_rust.Types.Encoding.{Codec, Sha256Hash, sha256_from_hex, hex_log_id_to_base64}
use sigstore_rust.Types.Dsse.{DsseEnvelope}
use sigstore_rust.Types.Bundle.{
  Bundle, bundle_0_3, media_type_as_str, VerificationMaterialContent, certificate, public_key,
  SignatureContent, message_signature, dsse_envelope, TransparencyLogEntry, InclusionProof,
  InclusionPromise,
}
use sigstore_rust.Rekor.Entry.{LogEntry, Verification, RekorInclusionProof}

-- `certificate` and `key_hint` are the source's `Certificate` and `PublicKey`.
pub data VerificationMaterialV03 : Type 0 where
  single_certificate : (raw_bytes : Bytes) → VerificationMaterialV03
  key_hint : (hint : Str) → VerificationMaterialV03

pub record BundleV03 : Type 0 where
  pub verification : VerificationMaterialV03
  pub content : SignatureContent
  pub tlog_entries : List TransparencyLogEntry
  pub rfc3161_timestamps : List Bytes

unfoldable pub new_bundle : VerificationMaterialV03 → SignatureContent → BundleV03
new_bundle verification content = record {
  verification = verification;
  content = content;
  tlog_entries = [];
  rfc3161_timestamps = [];
}

unfoldable pub with_certificate_and_signature : Bytes → Bytes → Sha256Hash → BundleV03
unfolding new_bundle
with_certificate_and_signature cert signature artifact_digest =
    new_bundle (single_certificate cert) (
      message_signature (record {
        message_digest = some (record { algorithm = sha2_256; digest = artifact_digest });
        signature = signature;
      }))

unfoldable pub with_certificate_and_dsse : Bytes → DsseEnvelope → BundleV03
unfolding new_bundle
with_certificate_and_dsse cert envelope =
    new_bundle (single_certificate cert) (dsse_envelope envelope)

unfoldable pub with_tlog_entry : BundleV03 → TransparencyLogEntry → BundleV03
with_tlog_entry b entry = record b { tlog_entries = b.tlog_entries ++ entry ∷ [] }

unfoldable pub with_rfc3161_timestamp : BundleV03 → Bytes → BundleV03
with_rfc3161_timestamp b timestamp = record b {
  rfc3161_timestamps = b.rfc3161_timestamps ++ timestamp ∷ [];
}

unfoldable pub verification_content : VerificationMaterialV03 → VerificationMaterialContent
verification_content (single_certificate cert) = certificate cert
verification_content (key_hint hint) = public_key hint

unfoldable pub into_bundle : BundleV03 → Bundle
unfolding verification_content media_type_as_str
into_bundle b = record {
  media_type = media_type_as_str bundle_0_3;
  verification_material = record {
    content = verification_content b.verification;
    tlog_entries = b.tlog_entries;
    rfc3161_timestamps = b.rfc3161_timestamps;
  };
  content = b.content;
}

pub record TlogEntryBuilder : Type 0 where
  pub log_index : ℤ
  pub log_id : Str
  pub kind : Str
  pub kind_version : Str
  pub integrated_time : ℤ
  pub canonicalized_body : Bytes
  pub inclusion_promise : Option InclusionPromise
  pub inclusion_proof : Option InclusionProof

abbrev pub new_builder : TlogEntryBuilder
new_builder = record {
  log_index = pos 0;
  log_id = [];
  kind = str "hashedrekord";
  kind_version = str "0.0.1";
  integrated_time = pos 0;
  canonicalized_body = [];
  inclusion_promise = none;
  inclusion_proof = none;
}

-- n zeros
abbrev zeros : ℕ → Bytes
zeros zero = []
zeros (suc n) = 0 ∷ zeros n

abbrev or_zeros : Result Sha256Hash → Sha256Hash
or_zeros (ok hash) = hash
or_zeros (err e) = zeros 32

abbrev ok_or_self : Result Str → Str → Str
ok_or_self (ok s) t = s
ok_or_self (err e) t = t

abbrev keep_ok : Result Sha256Hash → List Sha256Hash → List Sha256Hash
keep_ok (ok hash) rest = hash ∷ rest
keep_ok (err e) rest = rest

module _ (codec : Codec) where
  -- `filter_map(|h| Sha256Hash::from_hex(h).ok())`
  unfoldable pub hashes_from_hex : List Str → List Sha256Hash
  unfolding sha256_from_hex
  hashes_from_hex [] = []
  hashes_from_hex (h ∷ hs) = keep_ok (sha256_from_hex codec h) (hashes_from_hex hs)

  unfoldable pub convert_proof : RekorInclusionProof → InclusionProof
  unfolding hashes_from_hex
  convert_proof proof = record {
    log_index = proof.log_index;
    root_hash = or_zeros (sha256_from_hex codec proof.root_hash);
    tree_size = proof.tree_size;
    hashes = hashes_from_hex proof.hashes;
    checkpoint = proof.checkpoint;
  }

  abbrev promise_of : Option Bytes → Option InclusionPromise
  promise_of none = none
  promise_of (some set) = some (record { signed_entry_timestamp = set })

  abbrev proof_of : Option RekorInclusionProof → Option InclusionProof
  proof_of none = none
  proof_of (some proof) = some (convert_proof proof)

  abbrev with_verification : TlogEntryBuilder → Option Verification → TlogEntryBuilder
  with_verification builder none = builder
  with_verification builder (some v) = record builder {
    inclusion_promise = promise_of v.signed_entry_timestamp;
    inclusion_proof = proof_of v.inclusion_proof;
  }

  unfoldable pub from_log_entry : LogEntry → (kind version : Str) → TlogEntryBuilder
  unfolding convert_proof hex_log_id_to_base64
  from_log_entry entry kind version =
      with_verification
        (record {
          log_index = entry.log_index;
          log_id = ok_or_self (hex_log_id_to_base64 codec entry.log_id) entry.log_id;
          kind = kind;
          kind_version = version;
          integrated_time = entry.integrated_time;
          canonicalized_body = entry.body;
          inclusion_promise = none;
          inclusion_proof = none;
        })
        entry.verification

-- The setters, named for the fields they set.
unfoldable pub set_log_index : TlogEntryBuilder → ℤ → TlogEntryBuilder
set_log_index b index = record b { log_index = index }

unfoldable pub set_integrated_time : TlogEntryBuilder → ℤ → TlogEntryBuilder
set_integrated_time b time = record b { integrated_time = time }

unfoldable pub set_inclusion_promise : TlogEntryBuilder → Bytes → TlogEntryBuilder
set_inclusion_promise b set = record b {
  inclusion_promise = some (record { signed_entry_timestamp = set });
}

unfoldable pub set_inclusion_proof :
    TlogEntryBuilder
    → (log_index : ℤ) → Sha256Hash
    → (tree_size : ℤ) → List Sha256Hash
    → Str
    → TlogEntryBuilder
set_inclusion_proof b log_index root_hash tree_size hashes checkpoint = record b {
  inclusion_proof = some (record {
    log_index = log_index;
    root_hash = root_hash;
    tree_size = tree_size;
    hashes = hashes;
    checkpoint = checkpoint;
  });
}

unfoldable pub build : TlogEntryBuilder → TransparencyLogEntry
build b = record {
  log_index = b.log_index;
  log_id = b.log_id;
  kind_version = record { kind = b.kind; version = b.kind_version };
  integrated_time = b.integrated_time;
  inclusion_promise = b.inclusion_promise;
  inclusion_proof = b.inclusion_proof;
  canonicalized_body = b.canonicalized_body;
}
